-- ===== src/Client/Send/Asked.antt =====
-- The request that an operation stands for, as a message of the wire format.
use libexositecoap.Common.{ℕ, ◌+◌, ◌^◌, ◌≤◌, ◌<◌, ◌≡◌, ◌≢◌, List, ◌++◌, length, arith, ok}
use libexositecoap.Coap.Pdu.{Pdu, Ptr}
use libexositecoap.Coap.Wire.{Opt, Message, IsEncodable, IsOptions, encode}
use libexositecoap.Coap.Fields.TokenValue.{length-le_bytes, le_bytes-IsByte}
use libexositecoap.Pal.{Pal}
use libexositecoap.Client.State.{Client, exo_ok, string_at}
use libexositecoap.Client.Op.{Op, exo_null, exo_write, exo_read, exo_subscribe, exo_activate}
use libexositecoap.Client.Message.Answers.{blank}
use libexositecoap.Client.Message.Fill.{Filled}
use libexositecoap.Client.Message.Wanted.{
  request_message, read_request, observe_request, write_request, activate_request, requested,
}
use libexositecoap.Client.Message.Requests.{
  build_msg_read-Filled, build_msg_observe-Filled, build_msg_write-Filled,
  build_msg_activate-Filled,
}
use libexositecoap.Client.Send.{build_request}
use mathlib.Core.Option.{Option}

-- The string behind a pointer, of a length that an option can have.
pub record Named (pointer : Option (List ℕ)) (text : List ℕ) : Type 0 where
  pub string : string_at pointer ≡ ok text
  pub short : length text < 65536

-- The CIK of the client.
pub record HasKey {W : Type 0} (c : Client W) (key : List ℕ) : Type 0 where
  pub rest : List ℕ
  pub key_size : length key ≡ 40
  pub cik : c.cik ≡ key ++ rest

-- The operation of a client asks for the message, with a given token.
pub data Asks {W : Type 0} (c : Client W) (token : ℕ) : Op → Message → Type 0 where
  asks_read :
      (op : Op) {name key : List ℕ}
      → op.type ≡ exo_read
      → HasKey c key
      → Named op.alias name
      → Asks c token op (read_request c.message_id_counter token name key)
  asks_observe :
      (op : Op) {name key : List ℕ}
      → op.type ≡ exo_subscribe
      → HasKey c key
      → Named op.alias name
      → Asks c token op (observe_request c.message_id_counter token name key)
  asks_write :
      (op : Op) {name key text : List ℕ}
      → op.type ≡ exo_write
      → HasKey c key
      → Named op.alias name
      → string_at op.value ≡ ok text
      → Asks c token op (write_request c.message_id_counter token name key text)
  asks_activate :
      (op : Op) {vendor model serial : List ℕ}
      → op.type ≡ exo_activate
      → Named c.vendor vendor
      → Named c.model model
      → Named c.serial serial
      → Asks c token op (activate_request c.message_id_counter token vendor model serial)

pub request_message-IsEncodable :
    (code mid token : ℕ) (options : List Opt) (payload : Option (List ℕ))
    → code < 256
    → mid < 65536
    → IsOptions 0 options
    → IsEncodable (request_message code mid token options payload)
request_message-IsEncodable code mid token options payload c i sorted = record {
  type_range = omega arith;
  code_range = c;
  mid_range = i;
  token_range = omega (arith, length-le_bytes 2 token);
  token_bytes = le_bytes-IsByte 2 token;
  options_sorted = sorted;
}

module _ {W : Type 0} (c : Client W) (token : ℕ) (counter : c.message_id_counter < 65536) where
  pub Asks-IsEncodable : {op : Op} {m : Message} → Asks c token op m → IsEncodable m
  Asks-IsEncodable (asks_read op t k n) =
      request_message-IsEncodable _ _ _ _ _ (omega arith) counter
        (ground (arith, k.key_size, n.short))
  Asks-IsEncodable (asks_observe op t k n) =
      request_message-IsEncodable _ _ _ _ _ (omega arith) counter
        (ground (arith, k.key_size, n.short))
  Asks-IsEncodable (asks_write op t k n s) =
      request_message-IsEncodable _ _ _ _ _ (omega arith) counter
        (ground (arith, k.key_size, n.short))
  Asks-IsEncodable (asks_activate op t a b d) =
      request_message-IsEncodable _ _ _ _ _ (omega arith) counter
        (ground (arith, a.short, b.short, d.short))

pub Asks-not_null :
    {W : Type 0} {c : Client W} {token : ℕ} {op : Op} {m : Message}
    → Asks c token op m
    → op.type ≢ exo_null
Asks-not_null (asks_read op t k n) = λ e. cc
Asks-not_null (asks_observe op t k n) = λ e. cc
Asks-not_null (asks_write op t k n s) = λ e. cc
Asks-not_null (asks_activate op t a b d) = λ e. cc

module _ {W : Type 0} (pal : Pal W) (c : Client W) (base x y z w len : ℕ) (spare : List ℕ)
    (opt_ptr : Ptr) (counter : c.message_id_counter < 65536) (top : 4 + length spare < 2 ^ 63) where
  -- For an operation that asks for a message, with a counter of 16 bits and a buffer of 4 bytes or
  -- more and less than 2^63 that the message fits in, the builder of its type answers EXO_OK, the
  -- buffer holds the message, and the counter moves on. A read asks for a GET of `1a/alias`, a
  -- subscription for the same with an Observe option of one byte 0, and a write for a POST there
  -- with the value as its payload, all with the CIK as the query; an activation asks for a POST to
  -- `provision/activate/` with the vendor, the model and the serial number. Each is confirmable,
  -- with the counter as its id and two random bytes as its token.
  pub build_request-Filled :
      {op : Op} {m : Message}
      → Asks c (pal.rand c.world).0 op m
      → length (encode m) ≤ 4 + length spare
      → (q : Pdu) × (build_request pal op.type c (blank base x y z w spare len opt_ptr) op
          ≡ ok (exo_ok, q, requested pal c))
        × Filled base (4 + length spare) m q
  unfolding build_request
  build_request-Filled (asks_read op {name = name} {key = key} t k n) fits = rw t (
      build_msg_read-Filled pal c base x y z w len spare opt_ptr counter top key k.rest k.key_size
        k.cik op.alias name n.string n.short fits)
  build_request-Filled (asks_observe op {name = name} {key = key} t k n) fits = rw t (
      build_msg_observe-Filled pal c base x y z w len spare opt_ptr counter top key k.rest
        k.key_size k.cik op.alias name n.string n.short fits)
  build_request-Filled (asks_write op {name = name} {key = key} {text = text} t k n s) fits = rw t (
      build_msg_write-Filled pal c base x y z w len spare opt_ptr counter top key k.rest k.key_size
        k.cik op.alias name n.string n.short op.value text s fits)
  build_request-Filled
        (asks_activate op {vendor = vendor} {model = model} {serial = serial} t a b d) fits =
      rw t (
        build_msg_activate-Filled pal c base x y z w len spare opt_ptr counter top vendor model
          serial a.string b.string d.string a.short b.short d.short fits)
