-- ===== src/Examples/Print/Message.antt =====
-- `coap_pretty_print` of picocoap/examples/posix/client.c on a buffer that holds a message.
use libexositecoap.Common.{
  ℕ, ◌+◌, ◌/◌, ◌%◌, ◌^◌, ◌<◌, ◌≡◌, sym, List, [], ◌∷◌, ◌++◌, length, arith, ok,
}
use libexositecoap.Coap.Pdu.{Pdu}
use libexositecoap.Coap.Wire.{
  Message, IsEncodable, IsOptions, encode, encode_options, encode_payload, holding,
}
use libexositecoap.Coap.Wire.Layout.{preamble, holding-bytes, length-encode, length-preamble}
use libexositecoap.Coap.Fields.{le_value}
use libexositecoap.Coap.Fields.Laws.{
  get_type-holding, get_code_class-holding, get_code_detail-holding, get_mid-holding,
  get_tkl-holding,
}
use libexositecoap.Coap.Fields.TokenValue.{get_token-holding}
use libexositecoap.Coap.Reader.{option_start, first_option}
use libexositecoap.Coap.Reader.Validate.{validate_pkt-message}
use libexositecoap.Examples.Print.{
  valid_packet, type_line, code_line, mid_line, token_line, coap_pretty_print, print_header,
}
use libexositecoap.Examples.Print.Options.{option_lines, payload_lines, print_options-whole}

module _ (base : ℕ) (m : Message) (spare : List ℕ) (v : IsEncodable m) where
  print_header-holding :
      print_header (holding base m spare)
      ≡ ok (
          valid_packet (length (encode m))
          ∷ type_line m.mtype
          ∷ code_line (m.code / 32) (m.code % 32)
          ∷ mid_line m.mid
          ∷ token_line (le_value m.token)
          ∷ [])
  unfolding print_header holding
  print_header-holding = ground (
    arith,
    get_type-holding base m spare v,
    get_code_class-holding base m spare v,
    get_code_detail-holding base m spare v,
    get_mid-holding base m spare v,
    get_token-holding base m spare v,
  )

-- In a buffer that holds an encodable message of less than 2^31 bytes whose option numbers are not
-- 0, with fuel for one round more than there are options, `coap_pretty_print` prints the length,
-- the type, the code, the message id and the token, then for each option its number and, if the
-- value is not empty, the value up to its first 0 and its length. The payload is printed in the
-- same way if there are no options, and not at all if there are.
pub pretty_print-holding :
    (base : ℕ) (m : Message) (spare : List ℕ) (fuel : ℕ)
    → IsEncodable m
    → IsOptions 1 m.options
    → length (encode m) < 2 ^ 31
    → length m.options < fuel
    → coap_pretty_print fuel (holding base m spare)
      ≡ ok (
          valid_packet (length (encode m))
          ∷ type_line m.mtype
          ∷ code_line (m.code / 32) (m.code % 32)
          ∷ mid_line m.mid
          ∷ token_line (le_value m.token)
          ∷ (option_lines m.options ++ payload_lines m.options m.payload))
unfolding coap_pretty_print
pretty_print-holding base m spare fuel v positive small enough =
    let p : Pdu = holding base m spare in
    let e : p.bytes
        ≡ preamble m ++ (encode_options 0 m.options ++ (encode_payload m.payload ++ spare)) =
      holding-bytes base m spare in
    let (end, run, last) =
      print_options-whole p (unfold holding in small) m.payload spare fuel m.options (preamble m)
        (4 + length m.token)
        (record {
          start =
              unfold option_start first_option in ground (arith, get_tkl-holding base m spare v);
          here = sym (length-preamble m);
          bytes = e;
          whole = unfold holding in length-encode m;
          sorted = v.options_sorted;
          positive = positive;
        })
        enough in
    ground (
      arith,
      validate_pkt-message base m spare v (omega arith),
      print_header-holding base m spare v,
      run,
      last,
    )
