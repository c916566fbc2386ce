-- ===== src/Client/Receive/Activated.antt =====
-- The answer to an activation, in `exo_process_waiting_datagrams` of src/exosite.c.
use libexositecoap.Common.{
  ℕ, ◌-◌, ◌/◌, ◌^◌, ◌<◌, ◌≡◌, refl, ap, sym, ◌∙◌, ◌++◌, drop, List, length, ◌==◌, if◌then◌else◌,
  false, true, arith, ok, Bool,
}
use libexositecoap.Memory.{poke, read}
use libexositecoap.Coap.Pdu.{ct_ack, at}
use libexositecoap.Coap.Wire.{Message, IsEncodable, encode, holding}
use libexositecoap.Coap.Fields.Laws.{get_mid-holding, get_code-holding, get_code_class-holding}
use libexositecoap.Coap.Reader.Payload.{payload_at, get_payload-holding}
use libexositecoap.Pal.{Pal}
use libexositecoap.Client.State.{Client, good, cik_length}
use libexositecoap.Client.Op.{Op, exo_activate, request_pending, exo_op_init}
use libexositecoap.Client.Handlers.{claim, on_activate, on_success, on_answer, on_ack}
use libexositecoap.Client.Receive.{on_datagram}
use libexositecoap.Client.Receive.Values.{as_string, read_payload, write_text, poke_text}
use mathlib.Core.Option.{some}

module _ {W : Type 0} (pal : Pal W) (c : Client W) (base : ℕ) (m : Message) (spare : List ℕ)
    (op : Op) (key : List ℕ) (valid : IsEncodable m) (small : length (encode m) < 2 ^ 64)
    (carried : m.payload ≡ some key) (array : 40 < length c.cik) where
  -- The client with the key.
  abbrev activated : Client W
  activated = record c {
    cik = as_string key c.cik;
    device_state = good;
    world = (pal.exopal_store_cik (as_string key c.cik) c.world).1;
  }

  place :
      payload_at (length (encode m)) m.payload
      ≡ record { len = length key; val = at (length (encode m) - length key) }
  unfolding payload_at
  place = rw carried refl

  -- A key of the right length goes into the array, and to the platform.
  key_stored :
      length key ≡ cik_length
      → on_activate pal (holding base m spare) c op ≡ ok (claim exo_op_init activated false)
  unfolding on_activate
  key_stored size =
      let payload : read (holding base m spare).bytes (length (encode m) - length key) cik_length
          ≡ ok key =
        ap (λ n. read (holding base m spare).bytes (length (encode m) - length key) n) (sym size)
        ∙ read_payload base m key spare carried in
      let zeroed : poke (key ++ drop (length key) c.cik) cik_length 0 ≡ ok (as_string key c.cik) =
        ap (λ n. poke (key ++ drop (length key) c.cik) n 0) (sym size)
        ∙ poke_text key c.cik (omega arith) in
      let test : (length key == cik_length) ≡ true = ground arith in
      rw (get_payload-holding base m spare valid small)
        (rw place (rw test (rw payload (rw (write_text key c.cik (omega arith)) (rw zeroed refl)))))

  on_activate-payload :
      (same : Bool)
      → (length key == cik_length) ≡ same
      → on_activate pal (holding base m spare) c op
        ≡ ok (claim exo_op_init (if same then activated else c) false)
  unfolding on_activate
  on_activate-payload true e = key_stored (ground arith)
  on_activate-payload false e =
      rw (get_payload-holding base m spare valid small) (rw place (rw e refl))

  -- An encodable ACK of class 2 and less than 2^64 bytes with the id of a pending activation and a
  -- payload, with the array of 41 bytes or more for the CIK, makes the operation free. If the
  -- payload has 40 bytes they are the CIK, with a 0 behind them, the platform gets the array to
  -- store, and the device is good; with any other length the client is what it was.
  pub activation_answered :
      op.type ≡ exo_activate
      → op.state ≡ request_pending
      → op.mid ≡ m.mid
      → m.mtype ≡ ct_ack
      → m.code / 32 ≡ 2
      → on_datagram pal m.mtype (holding base m spare) c op
        ≡ ok (claim exo_op_init (if length key == cik_length then activated else c) false)
  unfolding on_datagram on_ack on_answer on_success
  activation_answered kind waits mine ack class = ground (
    arith,
    get_mid-holding base m spare valid,
    get_code-holding base m spare valid,
    get_code_class-holding base m spare valid,
    on_activate-payload (length key == cik_length) refl,
  )
