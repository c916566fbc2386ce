-- ===== src/Coap/Wire.antt =====
-- The message format of RFC 7252, section 3, as the specification of the readers and the writers.
pub mod Layout
use libexositecoap.Common.{
  ℕ, ◌+◌, ◌-◌, ◌*◌, ◌/◌, ◌%◌, ◌≤◌, ◌<◌, List, [], ◌∷◌, ◌++◌, length, All, ltb, if◌then◌else◌,
}
use libexositecoap.Common.Bytes.{IsByte}
use libexositecoap.Coap.Pdu.{Pdu, null}
use mathlib.Core.Option.{Option, none, some}

-- An option number with its value.
pub record Opt : Type 0 where
  pub num : ℕ
  pub val : List ℕ

pub record Message : Type 0 where
  pub mtype : ℕ
  pub code : ℕ
  pub mid : ℕ
  pub token : List ℕ
  pub options : List Opt
  pub payload : Option (List ℕ)

-- The nibble and the extension bytes of an option delta or an option length.
unfoldable pub nibble : ℕ → ℕ
nibble n = if ltb n 13 then n else if ltb n 269 then 13 else 14

unfoldable pub extension : ℕ → List ℕ
extension n =
    if ltb n 13
    then []
    else if ltb n 269
    then (n - 13) ∷ []
    else ((n - 269) / 256) ∷ ((n - 269) % 256) ∷ []

unfoldable pub option_header : ℕ → ℕ → List ℕ
option_header delta len = (nibble delta * 16 + nibble len) ∷ (extension delta ++ extension len)

-- `last` is the number of the option before.
unfoldable pub encode_options : ℕ → List Opt → List ℕ
encode_options last [] = []
encode_options last (o ∷ os) =
    option_header (o.num - last) (length o.val) ++ (o.val ++ encode_options o.num os)

unfoldable pub encode_payload : Option (List ℕ) → List ℕ
encode_payload none = []
encode_payload (some v) = 0xff ∷ v

-- What follows the fixed header.
unfoldable pub encode_body : List ℕ → List Opt → Option (List ℕ) → List ℕ
encode_body token options payload = token ++ (encode_options 0 options ++ encode_payload payload)

unfoldable pub encode : Message → List ℕ
encode m =
    (64 + m.mtype * 16 + length m.token)
    ∷ m.code
    ∷ (m.mid / 256)
    ∷ (m.mid % 256)
    ∷ encode_body m.token m.options m.payload

-- Option numbers do not fall, from `last` on, and all of an option is in range.
abbrev pub IsOptions : ℕ → List Opt → Type 0
IsOptions last [] = Unit {0}
IsOptions last (o ∷ os) =
    (last ≤ o.num) × (o.num < 65536) × (length o.val < 65536) × IsOptions o.num os

-- The fields of the message are in the ranges of the wire format. This is less than RFC 7252 asks of
-- a message: a payload may be empty, so that a marker with nothing behind it ends the bytes.
pub record IsEncodable (m : Message) : Type 0 where
  pub type_range : m.mtype < 4
  pub code_range : m.code < 256
  pub mid_range : m.mid < 65536
  pub token_range : length m.token ≤ 8
  pub token_bytes : All IsByte m.token
  pub options_sorted : IsOptions 0 m.options

-- A buffer that holds the message, with the bytes `spare` behind it up to `max`.
unfoldable pub holding : ℕ → Message → List ℕ → Pdu
holding base m spare = record {
  base = base;
  bytes = encode m ++ spare;
  len = length (encode m);
  max = length (encode m ++ spare);
  opt_ptr = null;
}

-- An empty message of type RST with no token, as `coap_init_pdu` leaves it.
abbrev pub reset_message : Message
reset_message = record { mtype = 3; code = 0; mid = 0; token = []; options = []; payload = none }
