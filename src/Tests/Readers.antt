-- ===== src/Tests/Readers.antt =====
-- Runs of the readers on the sample.
use libexositecoap.Common.{
  ℕ, ◌/◌, bit_and, ◌+◌, ◌^◌, ◌%◌, ◌≤◌, ◌<◌, ◌≡◌, refl, [], ◌∷◌, ◌++◌, length, arith, ok,
}
use libexositecoap.Memory.{peek}
use libexositecoap.Coap.Pdu.{Pdu, CoapOption, null, ce_none}
use libexositecoap.Coap.Wire.{nibble, extension, option_header, encode_options, encode, holding}
use libexositecoap.Coap.Wire.Layout.{preamble}
use libexositecoap.Coap.Fields.{le_bytes, le_value, coap_get_version, coap_get_tkl}
use libexositecoap.Coap.Fields.TokenValue.{le_value-le_bytes}
use libexositecoap.Coap.Header.{coap_decode_option, decode_header, extended}
use libexositecoap.Coap.Header.Decode.{decode_option-header, decode_option_place, extension_size}
use libexositecoap.Coap.Reader.{coap_validate_pkt, coap_get_option_by_num, coap_get_payload}
use libexositecoap.Coap.Reader.Options.{find_option, IsFound}
use libexositecoap.Coap.Reader.ByNumber.{get_option_by_num-holding}
use libexositecoap.Coap.Reader.Payload.{payload_at, get_payload-holding}
use libexositecoap.Coap.Reader.Validate.{validate_pkt_accepts, validate_pkt-message}
use libexositecoap.Tests.Samples.{
  sample, sample-IsEncodable, length-sample, options_of_sample, room,
}
use mathlib.Core.Option.{some, none}

sample_small : length (encode sample) < 2 ^ 64
sample_small = omega (arith, length-sample)

-- The options of the sample: the second with the number 11, and none with the number 12.
find_second :
    find_option 11 1 options_of_sample
    ≡ some (
        b'a' ∷ b'b' ∷ b'c' ∷ b'd' ∷ b'e' ∷ b'f' ∷ b'g' ∷ b'h' ∷ b'i' ∷ b'j' ∷ b'k' ∷ b'l' ∷ b'm'
        ∷ b'n' ∷ [])
find_second = refl

find_missing : find_option 12 0 options_of_sample ≡ none
find_missing = refl

get_option_by_num-holding_example :
    (r : CoapOption) × (coap_get_option_by_num (holding 0 sample room) 11 1 ≡ ok r)
    × IsFound (holding 0 sample room) 11 (find_option 11 1 sample.options) r
get_option_by_num-holding_example =
    get_option_by_num-holding 0 sample room 11 1 sample-IsEncodable
      (
        omega arith,
        omega arith,
        omega arith,
        (omega arith, omega arith, omega arith, (omega arith, omega arith, omega arith, tt)),
      )
      sample_small (omega arith) (omega arith)

get_payload-holding_example :
    coap_get_payload (holding 0 sample room)
    ≡ ok (payload_at (length (encode sample)) sample.payload)
get_payload-holding_example = get_payload-holding 0 sample room sample-IsEncodable sample_small

validate_pkt-message_example :
    coap_validate_pkt (holding 0 sample room) ≡ ok (ce_none, holding 0 sample room)
validate_pkt-message_example = validate_pkt-message 0 sample room sample-IsEncodable sample_small

validate_pkt_accepts_example :
    (holding 0 sample room ≡ record (holding 0 sample room) { opt_ptr = null })
    × (4 ≤ (holding 0 sample room).len)
    × ((holding 0 sample room).len ≤ (holding 0 sample room).max)
    × (coap_get_version (holding 0 sample room) ≡ ok 1)
    × ((tkl : ℕ) → coap_get_tkl (holding 0 sample room) ≡ ok tkl → tkl ≤ 8)
validate_pkt_accepts_example =
    validate_pkt_accepts (holding 0 sample room) (holding 0 sample room)
      (validate_pkt-message 0 sample room sample-IsEncodable sample_small)

-- An option, and behind it the byte 0xf0, which starts no option.
abbrev spoiled : Pdu
spoiled = record {
  base = 0;
  bytes =
      preamble sample ++ (encode_options 0 ((record { num = 11; val = [] }) ∷ []) ++ (0xf0 ∷ []));
  len =
      length (
        preamble sample
        ++ (encode_options 0 ((record { num = 11; val = [] }) ∷ []) ++ (0xf0 ∷ [])));
  max =
      length (
        preamble sample
        ++ (encode_options 0 ((record { num = 11; val = [] }) ∷ []) ++ (0xf0 ∷ [])));
  opt_ptr = null;
}

length-spoiled :
    length
      (preamble sample ++ (encode_options 0 ((record { num = 11; val = [] }) ∷ []) ++ (0xf0 ∷ [])))
    ≡ 8
unfolding preamble encode_options option_header nibble extension
length-spoiled = refl

le_value-le_bytes_example : le_value (le_bytes 2 0xcdab) ≡ 0xcdab
le_value-le_bytes_example = le_value-le_bytes 2 0xcdab (omega arith)

decode_option-header_example :
    coap_decode_option
      ([] ++ (option_header 500 14 ++ room))
      0
      20
      (record { num = 3; len = 0; val = 0 })
    ≡ ok (
      ce_none,
      record { num = (3 + 500) % 65536; len = 14; val = 0 + length (option_header 500 14) },
    )
decode_option-header_example =
    decode_option-header [] room 0 20 500 14 (record { num = 3; len = 0; val = 0 }) refl
      (omega arith) (omega arith) (omega arith)

one_option :
    coap_decode_option (0xb1 ∷ 0x61 ∷ []) 0 2 (record { num = 0; len = 0; val = 0 })
    ≡ ok (ce_none, record { num = 11; len = 1; val = 1 })
unfolding coap_decode_option decode_header extended peek
one_option = refl

decode_option_place_example :
    (b : ℕ) × (peek (0xb1 ∷ 0x61 ∷ []) 0 ≡ ok b)
    × (0 < 2)
    × (b / 16 < 15)
    × (bit_and b 15 < 15)
    × (1 ≡ 0 + 1 + extension_size (b / 16) + extension_size (bit_and b 15))
    × (1 ≤ 0 + 5)
decode_option_place_example =
    decode_option_place (0xb1 ∷ 0x61 ∷ []) 0 2 (record { num = 0; len = 0; val = 0 })
      (record { num = 11; len = 1; val = 1 }) one_option
