-- ===== src/Tests/Writers.antt =====
-- Runs of the writers on the samples.
use libexositecoap.Common.{◌^◌, ◌<◌, ◌≡◌, refl, [], ◌∷◌, ◌++◌, length, drop, arith, ok}
use mathlib.Core.Option.{some}
use libexositecoap.Common.{length-append}
use libexositecoap.Coap.Lookup.{get_option_by_num-add_option}
use libexositecoap.Coap.Reader.{coap_get_option_by_num}
use libexositecoap.Coap.Reader.Options.{IsFound}
use libexositecoap.Coap.Pdu.{Pdu, CoapOption, null, ce_none, ce_insufficient_buffer}
use libexositecoap.Coap.Wire.{
  Opt, nibble, extension, option_header, encode_options, encode_payload, encode_body, encode,
  holding, reset_message,
}
use libexositecoap.Coap.Fields.{
  le_bytes, coap_init_pdu, coap_set_token, coap_set_type, coap_set_code, coap_set_mid,
}
use libexositecoap.Coap.Fields.Laws.{
  init_pdu-blank, set_type-holding, set_code-holding, set_mid-holding,
}
use libexositecoap.Coap.Fields.Token.{with_token, token_spare, set_token-holding}
use libexositecoap.Coap.Wire.Layout.{encode_option}
use libexositecoap.Coap.Header.{coap_build_option_header}
use libexositecoap.Coap.Header.Build.{build_option_header_lem}
use libexositecoap.Coap.Writer.{coap_add_option, coap_set_payload}
use libexositecoap.Coap.Writer.AddOption.{added, add_option-holding, add_option_full}
use libexositecoap.Coap.Writer.Insert.{with_option}
use libexositecoap.Coap.Writer.SetPayload.{with_payload, set_payload-holding}
use libexositecoap.Tests.Samples.{
  sample, bare, sample-IsEncodable, bare-IsEncodable, length-bare, room,
}

bare_small : length (encode bare) < 2 ^ 64
bare_small = omega (arith, length-bare)

-- A Uri-Query option, which comes behind every option of the sample.
abbrev query : Opt
query = record { num = 15; val = b'q' ∷ [] }

added-query : length (added bare query) ≡ 2
unfolding option_header nibble extension encode_option
added-query = refl

add_option-holding_example :
    coap_add_option (holding 0 bare room) query.num query.val (length query.val)
    ≡ ok (ce_none, holding 0 (with_option bare query) (drop (length (added bare query)) room))
add_option-holding_example =
    add_option-holding 0 bare room query bare-IsEncodable refl (refl, (refl, (refl, tt))) bare_small
      (omega arith) (omega arith) (omega (arith, added-query))

add_option_full_example :
    coap_add_option (holding 0 bare (0 ∷ [])) query.num query.val (length query.val)
    ≡ ok (ce_insufficient_buffer, holding 0 bare (0 ∷ []))
add_option_full_example =
    add_option_full 0 bare (0 ∷ []) query bare-IsEncodable refl (refl, (refl, (refl, tt)))
      bare_small (omega (arith, added-query))

set_payload-holding_example :
    coap_set_payload (holding 0 bare room) (b'o' ∷ b'n' ∷ []) 2
    ≡ ok (ce_none, holding 0 (with_payload bare (b'o' ∷ b'n' ∷ [])) (drop 3 room))
set_payload-holding_example =
    set_payload-holding 0 bare (b'o' ∷ b'n' ∷ []) bare-IsEncodable refl bare_small room
      (omega arith)

length-sample-room : length (encode sample ++ room) ≡ 38
unfolding encode encode_body encode_options option_header nibble extension encode_payload
length-sample-room = refl

length-sample-behind :
    length (encode_options 0 sample.options ++ encode_payload sample.payload) ≡ 24
unfolding encode_options option_header nibble extension encode_payload
length-sample-behind = refl

set_token-holding_example :
    coap_set_token (holding 0 sample room) 0x123456 4
    ≡ ok (ce_none, holding 0 (with_token sample (le_bytes 4 0x123456)) (token_spare sample room 4))
set_token-holding_example =
    set_token-holding 0 sample room 0x123456 4 sample-IsEncodable (omega arith)
      (omega (arith, length-sample-room)) (omega (arith, length-sample-room, length-sample-behind))

length-sample-alone : length (encode sample ++ []) ≡ 30
unfolding encode encode_body encode_options option_header nibble extension encode_payload
length-sample-alone = refl

set_type-holding_example :
    coap_set_type (holding 0 sample room) 1
    ≡ ok (ce_none, holding 0 (record sample { mtype = 1 }) room)
set_type-holding_example = set_type-holding 0 sample room sample-IsEncodable 1 (omega arith)

set_code-holding_example :
    coap_set_code (holding 0 sample room) 2
    ≡ ok (ce_none, holding 0 (record sample { code = 2 }) room)
set_code-holding_example = set_code-holding 0 sample room sample-IsEncodable 2 (omega arith)

set_mid-holding_example :
    coap_set_mid (holding 0 sample room) 0xbeef
    ≡ ok (ce_none, holding 0 (record sample { mid = 0xbeef }) room)
set_mid-holding_example = set_mid-holding 0 sample room sample-IsEncodable 0xbeef (omega arith)

init_pdu-blank_example :
    coap_init_pdu (record {
      base = 0;
      bytes = 9 ∷ 9 ∷ 9 ∷ 9 ∷ room;
      len = 7;
      max = length (9 ∷ 9 ∷ 9 ∷ 9 ∷ room);
      opt_ptr = null;
    })
    ≡ ok (ce_none, holding 0 reset_message room)
init_pdu-blank_example = init_pdu-blank 0 9 9 9 9 7 null room

length-header : length (option_header 500 14) ≡ 4
unfolding option_header nibble extension
length-header = refl

build_option_header_lem_example :
    coap_build_option_header ((9 ∷ []) ++ ((1 ∷ 2 ∷ 3 ∷ 4 ∷ []) ++ room)) 1 5 500 14
    ≡ ok (length (option_header 500 14), (9 ∷ []) ++ (option_header 500 14 ++ room))
build_option_header_lem_example =
    build_option_header_lem (9 ∷ []) (1 ∷ 2 ∷ 3 ∷ 4 ∷ []) room 1 5 500 14 refl
      (omega (arith, length-header)) (omega (arith, length-header)) (omega arith) (omega arith)

get_option_by_num-add_option_example :
    (q : Pdu) × (r : CoapOption) × (coap_add_option
        (holding 0 bare room)
        query.num
        query.val
        (length query.val)
      ≡ ok (ce_none, q))
    × (coap_get_option_by_num q query.num 0 ≡ ok r)
    × IsFound q query.num (some query.val) r
get_option_by_num-add_option_example =
    get_option_by_num-add_option 0 bare room query bare-IsEncodable refl
      (
        omega arith,
        omega arith,
        omega arith,
        (omega arith, omega arith, omega arith, (omega arith, omega arith, omega arith, tt)),
      )
      (refl, (refl, (refl, tt))) (refl, (refl, (refl, tt))) (omega arith) (omega arith)
      (omega arith) (omega (arith, length-bare, length-append (encode bare) room))
      (omega (arith, added-query))
