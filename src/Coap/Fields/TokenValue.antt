-- ===== src/Coap/Fields/TokenValue.antt =====
-- The number that a token stands for, and `coap_get_token` of picocoap/src/coap.c.
use libexositecoap.Common.{
  ℕ, zero, suc, ◌+◌, ◌*◌, ◌/◌, ◌^◌, ◌<◌, ◌≡◌, refl, ap, ◌∙◌, List, ◌++◌, length, All, length-append,
  append_assoc, arith, ok, bit_and,
}
use libexositecoap.Common.Bytes.{IsByte, low_nibble}
use libexositecoap.Memory.Local.{read_front-append}
use libexositecoap.Coap.Wire.{
  Message, IsEncodable, encode_options, encode_payload, encode_body, encode, holding,
}
use libexositecoap.Coap.Fields.{le_bytes, le_value, coap_get_token}
use native.Mathlib.Nat.{pow-suc}

pub length-le_bytes : (n x : ℕ) → length (le_bytes n x) ≡ n
unfolding le_bytes
length-le_bytes zero x = refl
length-le_bytes (suc n) x = ap suc (length-le_bytes n (x / 256))

pub le_bytes-IsByte : (n x : ℕ) → All IsByte (le_bytes n x)
unfolding le_bytes
le_bytes-IsByte zero x = tt
le_bytes-IsByte (suc n) x = (omega arith, le_bytes-IsByte n (x / 256))

-- In a buffer that holds an encodable message `coap_get_token` returns the number that the bytes
-- of the token stand for, the lowest first.
pub get_token-holding :
    (base : ℕ) (m : Message) (spare : List ℕ)
    → IsEncodable m
    → coap_get_token (holding base m spare) ≡ ok (le_value m.token)
unfolding coap_get_token holding encode encode_body
get_token-holding base m spare v =
    let rest : List ℕ = encode_options 0 m.options ++ encode_payload m.payload in
    let tkl : bit_and (64 + m.mtype * 16 + length m.token) 0x0f ≡ length m.token =
      low_nibble _ (omega (arith, v.type_range, v.token_range))
      ∙ omega (arith, v.type_range, v.token_range) in
    ground (
      arith,
      tkl,
      v.token_range,
      length-append m.token rest,
      append_assoc m.token rest spare,
      read_front-append m.token (rest ++ spare),
    )

-- The low bytes of a number that fits in them are the number.
pub le_value-le_bytes : (n x : ℕ) → x < 256 ^ n → le_value (le_bytes n x) ≡ x
unfolding le_value le_bytes
le_value-le_bytes zero x h = omega arith
le_value-le_bytes (suc n) x h =
    omega (arith, pow-suc 256 n, le_value-le_bytes n (x / 256) (omega (arith, pow-suc 256 n)))
