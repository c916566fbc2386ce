-- ===== src/Coap/Fields/Laws.antt =====
-- The getters and setters of the fixed header on a buffer that holds a message.
use libexositecoap.Common.{ℕ, ◌+◌, ◌*◌, ◌/◌, ◌%◌, ◌<◌, ◌≡◌, refl, List, ◌∷◌, length, arith, ok}
use libexositecoap.Common.Bytes.{
  low_nibble, low_six, low_two, low_five, but_type, join_version, join_type, join_bytes, low_byte,
}
use libexositecoap.Coap.Pdu.{ce_none, coap_v1, Ptr}
use libexositecoap.Coap.Wire.{
  reset_message, Message, IsEncodable, encode, encode_body, encode_options, encode_payload, holding,
}
use libexositecoap.Coap.Fields.{
  coap_get_version, coap_get_type, coap_get_tkl, coap_get_code, coap_get_code_class,
  coap_get_code_detail, coap_get_mid, coap_set_version, coap_set_type, coap_set_code, coap_set_mid,
  coap_init_pdu,
}

module _ (base : ℕ) (m : Message) (spare : List ℕ) (v : IsEncodable m) where
  pub get_version-holding : coap_get_version (holding base m spare) ≡ ok 1
  unfolding coap_get_version holding encode
  get_version-holding = ground arith

  pub get_type-holding : coap_get_type (holding base m spare) ≡ ok m.mtype
  unfolding coap_get_type holding encode
  get_type-holding =
      ground
        (arith, low_two ((64 + m.mtype * 16 + length m.token) / 16), v.type_range, v.token_range)

  pub get_tkl-holding : coap_get_tkl (holding base m spare) ≡ ok (length m.token)
  unfolding coap_get_tkl holding encode
  get_tkl-holding =
      ground (arith, low_nibble (64 + m.mtype * 16 + length m.token), v.type_range, v.token_range)

  pub get_code-holding : coap_get_code (holding base m spare) ≡ ok m.code
  unfolding coap_get_code holding encode
  get_code-holding = refl

  pub get_mid-holding : coap_get_mid (holding base m spare) ≡ ok m.mid
  unfolding coap_get_mid holding encode
  get_mid-holding = ground (arith, join_bytes (m.mid / 256) (m.mid % 256), v.mid_range)

  pub set_version-holding :
      coap_set_version (holding base m spare) coap_v1 ≡ ok (ce_none, holding base m spare)
  unfolding coap_set_version holding encode
  set_version-holding = ground (
    arith,
    low_six (64 + m.mtype * 16 + length m.token),
    join_version 1 ((64 + m.mtype * 16 + length m.token) % 64),
    v.type_range,
    v.token_range,
  )

  -- `coap_set_type` of a type below 4 on a buffer that holds an encodable message leaves the message
  -- with that type there.
  pub set_type-holding :
      (t : ℕ)
      → t < 4
      → coap_set_type (holding base m spare) t
        ≡ ok (ce_none, holding base (record m { mtype = t }) spare)
  unfolding coap_set_type holding encode
  set_type-holding t h = ground (
    arith,
    but_type (64 + m.mtype * 16 + length m.token),
    join_type t (64 + m.mtype * 16 + length m.token),
    v.type_range,
    v.token_range,
  )

  pub set_code-holding :
      (c : ℕ)
      → c < 256
      → coap_set_code (holding base m spare) c
        ≡ ok (ce_none, holding base (record m { code = c }) spare)
  unfolding coap_set_code holding encode
  set_code-holding c h = ground arith

  -- `coap_set_mid` of a number of 16 bits on a buffer that holds an encodable message leaves the
  -- message with that message id there.
  pub set_mid-holding :
      (i : ℕ)
      → i < 65536
      → coap_set_mid (holding base m spare) i
        ≡ ok (ce_none, holding base (record m { mid = i }) spare)
  unfolding coap_set_mid holding encode
  set_mid-holding i h = ground (arith, low_byte (i / 256) (i % 256))

  pub get_code_class-holding : coap_get_code_class (holding base m spare) ≡ ok (m.code / 32)
  unfolding coap_get_code_class holding encode
  get_code_class-holding = ground (arith, v.code_range)

  pub get_code_detail-holding : coap_get_code_detail (holding base m spare) ≡ ok (m.code % 32)
  unfolding coap_get_code_detail holding encode
  get_code_detail-holding = ground (arith, low_five m.code, v.code_range)

module _ (base a b c d len : ℕ) (opt_ptr : Ptr) (spare : List ℕ) where
  -- `coap_init_pdu` on a buffer of 4 bytes or more, whatever is in it, leaves a message of type
  -- RST with the code 0, the message id 0, no token, no options and no payload.
  pub init_pdu-blank :
      coap_init_pdu (record {
        base = base;
        bytes = a ∷ b ∷ c ∷ d ∷ spare;
        len = len;
        max = length (a ∷ b ∷ c ∷ d ∷ spare);
        opt_ptr = opt_ptr;
      })
      ≡ ok (ce_none, holding base reset_message spare)
  unfolding coap_init_pdu holding encode encode_body encode_options encode_payload
  init_pdu-blank = ground arith
