-- ===== src/Client/Send/GivenUp.antt =====
-- A request of src/exosite.c that is never answered.
use libexositecoap.Common.{
  ℕ, zero, suc, ◌+◌, ◌^◌, ◌≤◌, ◌<◌, ◌≡◌, ◌≢◌, List, ◌++◌, length, Exec, ok, ◌>>=◌,
}
use libexositecoap.Coap.Pdu.{Pdu, Ptr}
use libexositecoap.Coap.Wire.{Message, encode, encode_options, encode_payload}
use libexositecoap.Pal.{Pal}
use libexositecoap.Client.State.{Client}
use libexositecoap.Client.Op.{Op, exo_subscribe, request_pending}
use libexositecoap.Client.Message.Answers.{blank}
use libexositecoap.Client.Message.Wanted.{requested}
use libexositecoap.Client.Send.{active_op}
use libexositecoap.Client.Send.Asked.{Asks}
use libexositecoap.Client.Send.Wire.{repeated}

-- What a pass finds: the client, the time, and the array of its message.
pub record Moment (W : Type 0) : Type 0 where
  pub client : Client W
  pub now : ℕ
  pub base : ℕ
  pub first : ℕ
  pub second : ℕ
  pub third : ℕ
  pub fourth : ℕ
  pub spare : List ℕ
  pub len : ℕ
  pub opt_ptr : Ptr

abbrev array : {W : Type 0} → Moment W → Pdu
array t = blank t.base t.first t.second t.third t.fourth t.spare t.len t.opt_ptr

module _ {W : Type 0} (pal : Pal W) where
  -- The pass is late for the operation, its request fits, and the platform takes the datagram.
  pub record IsLate (op : Op) (t : Moment W) : Type 0 where
    pub late : op.timeout ≤ t.now
    pub counter : t.client.message_id_counter < 65536
    pub message : Message
    pub asks : Asks t.client (pal.rand t.client.world).0 op message
    pub room : length (encode message) ≤ 4 + length t.spare
    pub room_again :
        4 + op.tkl + length (encode_options 0 message.options ++ encode_payload message.payload)
        ≤ 4 + length t.spare
    pub top : 4 + length t.spare < 2 ^ 63
    pub accepted :
        (pal.exopal_udp_send (encode (repeated message op)) (requested pal t.client).world).0 ≡ 0

  -- Passes at the operation alone, with what each finds depending on the operation.
  unfoldable pub passes : (Op → Moment W) → ℕ → Op → Exec Op
  passes moments zero op = ok op
  passes moments (suc n) op = do
    (op', p, c) ←
        active_op pal op.state (moments op).now (moments op).client (array (moments op)) op
    passes moments n op'

  module _ (op : Op) (mid_range : op.mid < 65536) (tkl_range : op.tkl ≤ 8)
      (other : op.type ≢ exo_subscribe) (moments : Op → Moment W) where
    -- The operation while it waits.
    abbrev waiting : ℕ → ℕ → Op
    waiting timeout retries = record op {
      state = request_pending;
      timeout = timeout;
      retries = retries;
    }
