-- ===== src/Coap/Lookup.antt =====
-- `coap_add_option` and `coap_get_option_by_num` of picocoap/src/coap.c together.
use libexositecoap.Common.{
  ℕ, ◌+◌, ◌^◌, ◌≤◌, ◌<◌, ◌≡◌, ap, ◌∙◌, subst, List, [], ◌∷◌, ◌++◌, length, length-append, drop, All,
  leb, ◌==◌, true, false, arith, ok,
}
use libexositecoap.Coap.Pdu.{Pdu, CoapOption, ce_none}
use libexositecoap.Coap.Wire.{Opt, Message, IsEncodable, IsOptions, encode, holding}
use libexositecoap.Coap.Reader.{coap_get_option_by_num}
use libexositecoap.Coap.Reader.Options.{find_option, IsFound}
use libexositecoap.Coap.Reader.ByNumber.{get_option_by_num-holding}
use libexositecoap.Coap.Writer.{coap_add_option}
use libexositecoap.Coap.Writer.AddOption.{added, add_option-holding}
use libexositecoap.Coap.Writer.Insert.{with_option, encode-with_option}
use libexositecoap.Coap.Writer.Append.{IsOptions-append, with_option-IsEncodable}
use mathlib.Core.Option.{some, none}

-- The first option of its number is found behind all others.
find_option-append :
    (os : List Opt) (o : Opt)
    → All (λ (q : Opt). (q.num == o.num) ≡ false) os
    → find_option o.num 0 (os ++ (o ∷ [])) ≡ some o.val
find_option-append [] o other = ground arith
find_option-append (q ∷ os) o (ne, other) = ground (arith, find_option-append os o other)

-- In a buffer that holds an encodable message without a payload whose option numbers are not 0,
-- the option that `coap_add_option` has put behind the others, with a number above theirs, is found
-- by `coap_get_option_by_num`: the result has its number, its length and the place of its value.
-- The number and the length are of 16 bits, and the buffer has room and less than 2^63 bytes.
pub get_option_by_num-add_option :
    (base : ℕ) (m : Message) (spare : List ℕ) (o : Opt)
    → IsEncodable m
    → m.payload ≡ none
    → IsOptions 1 m.options
    → All (λ (q : Opt). leb q.num o.num ≡ true) m.options
    → All (λ (q : Opt). (q.num == o.num) ≡ false) m.options
    → 1 ≤ o.num
    → o.num < 65536
    → length o.val < 65536
    → length (encode m ++ spare) < 2 ^ 63
    → length (added m o) ≤ length spare
    → (q : Pdu) × (r : CoapOption) × (coap_add_option
          (holding base m spare)
          o.num
          o.val
          (length o.val)
        ≡ ok (ce_none, q))
      × (coap_get_option_by_num q o.num 0 ≡ ok r)
      × IsFound q o.num (some o.val) r
get_option_by_num-add_option base m spare o v no_payload positive below other first rn rl small
      room =
    let rest : List ℕ = drop (length (added m o)) spare in
    let grown : length (encode (with_option m o)) ≡ length (encode m) + length (added m o) =
      ap (length {A = ℕ}) (encode-with_option m o no_payload)
      ∙ length-append (encode m) (added m o) in
    let split : length (encode m ++ spare) ≡ length (encode m) + length spare =
      length-append (encode m) spare in
    let valid : IsEncodable (with_option m o) = with_option-IsEncodable m o v below rn rl in
    let (r, e, found) =
      get_option_by_num-holding base (with_option m o) rest o.num 0 valid
        (IsOptions-append 1 m.options o positive below first rn rl) (omega arith) first
        (omega arith) in
    (
      holding base (with_option m o) rest,
      r,
      add_option-holding base m spare o v no_payload below (omega arith) rn rl room,
      e,
      subst (λ x. IsFound (holding base (with_option m o) rest) o.num x r)
          (find_option-append m.options o other) found,
    )
