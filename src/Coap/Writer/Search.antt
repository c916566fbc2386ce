-- ===== src/Coap/Writer/Search.antt =====
-- The search for an insertion point, on a buffer that holds a message.
use libexositecoap.Common.{
  ℕ, zero, suc, ◌+◌, ◌-◌, ◌^◌, ◌≤◌, ◌<◌, ◌≡◌, Bool, true, List, [], ◌∷◌, ◌++◌, length, All,
  length-append, arith, ok, sub64,
}
use libexositecoap.Coap.Wire.{
  Opt, Message, IsEncodable, IsOptions, option_header, encode_options, encode_payload, encode,
  holding,
}
use libexositecoap.Coap.Wire.Layout.{
  encode_option, length-encode_option, length-encode_options-cons, past_option,
  decode_option-option, end_error, decode_option-payload, preamble, length-preamble, length-encode,
  holding-bytes, holding-len, length-le-encode_options,
}
use libexositecoap.Coap.Header.{OptVars}
use libexositecoap.Coap.Header.Build.{option_header_bounds}
use libexositecoap.Coap.Writer.{find_place, zeroth}
use mathlib.Core.Option.{Option, none, some}

-- The number of the last option, or `last` if there is none.
abbrev pub last_num : ℕ → List Opt → ℕ
last_num last [] = last
last_num last (o ∷ os) = last_num o.num os

find_place_end :
    (fuel : ℕ) (goes_on : ℕ → Bool) (len : ℕ) (pre : List ℕ) (pl : Option (List ℕ)) (spare : List ℕ)
    (f : OptVars)
    → len < 2 ^ 64
    → f.val + f.len ≡ length pre
    → len ≡ length pre + length (encode_payload pl)
    → find_place (suc fuel) goes_on (pre ++ (encode_payload pl ++ spare)) len f
      ≡ ok (record { err = end_error pl; pkt_ptr = f.val + f.len; lopt_num = f.num })
unfolding find_place end_error
find_place_end fuel goes_on len pre none spare f small here whole =
    let left : sub64 len (f.val + f.len) ≡ length (encode_payload none) = omega arith in
    ground (arith, left, decode_option-payload pre none spare (f.val + f.len) f here)
find_place_end fuel goes_on len pre (some v) spare f small here whole =
    let left : sub64 len (f.val + f.len) ≡ length (encode_payload (some v)) = omega arith in
    ground (arith, left, decode_option-payload pre (some v) spare (f.val + f.len) f here)

-- The search passes every option whose number lets it go on, and ends behind the last one.
pub find_place_lem :
    (fuel : ℕ) (goes_on : ℕ → Bool) (len : ℕ) (pre : List ℕ) (os : List Opt) (pl : Option (List ℕ))
    (spare : List ℕ) (f : OptVars)
    → len < 2 ^ 64
    → f.val + f.len ≡ length pre
    → len ≡ length pre + length (encode_options f.num os) + length (encode_payload pl)
    → IsOptions f.num os
    → All (λ (o : Opt). goes_on o.num ≡ true) os
    → length os < fuel
    → find_place fuel goes_on
        (pre ++ (encode_options f.num os ++ (encode_payload pl ++ spare)))
        len
        f
      ≡ ok (record {
        err = end_error pl;
        pkt_ptr = length pre + length (encode_options f.num os);
        lopt_num = last_num f.num os;
      })
unfolding find_place
find_place_lem zero goes_on len pre os pl spare f small here whole sorted all enough =
    absurd (omega arith)
find_place_lem (suc fuel) goes_on len pre [] pl spare f small here whole sorted all enough =
    unfold encode_options in
    ground (arith, find_place_end fuel goes_on len pre pl spare f small here (omega arith))
find_place_lem (suc fuel) goes_on len pre (o ∷ os) pl spare f small here whole sorted all enough =
    let offset : ℕ = f.val + f.len in
    let tail : List ℕ = encode_payload pl ++ spare in
    let size = length-encode_options-cons f.num o os in
    let part = length-encode_option f.num o in
    let next : OptVars = record {
      num = o.num;
      len = length o.val;
      val = offset + length (option_header (o.num - f.num) (length o.val));
    } in
    let head : 1 ≤ length (option_header (o.num - f.num) (length o.val)) =
      (option_header_bounds (o.num - f.num) (length o.val)).0 in
    let ih =
      find_place_lem fuel goes_on len (pre ++ encode_option f.num o) os pl spare next small
        (omega (arith, length-append pre (encode_option f.num o)))
        (omega (arith, length-append pre (encode_option f.num o))) sorted.3 all.1 (omega arith) in
    ground (
      arith,
      size,
      part,
      head,
      decode_option-option pre f.num o os tail offset (sub64 len offset) f here (omega arith)
          sorted,
      past_option pre f.num o os tail,
      length-append pre (encode_option f.num o),
      ih,
      all.0,
    )

-- The search in a buffer that holds a message, when every number lets it go on.
pub find_place-holding :
    (base : ℕ) (m : Message) (spare : List ℕ) (goes_on : ℕ → Bool)
    → IsEncodable m
    → length (encode m) < 2 ^ 64
    → All (λ (o : Opt). goes_on o.num ≡ true) m.options
    → find_place
        (length (holding base m spare).bytes + 1)
        goes_on
        (holding base m spare).bytes
        (holding base m spare).len
        (zeroth (4 + length m.token))
      ≡ ok (record {
        err = end_error m.payload;
        pkt_ptr = length (preamble m) + length (encode_options 0 m.options);
        lopt_num = last_num 0 m.options;
      })
find_place-holding base m spare goes_on v small all =
    rw (holding-bytes base m spare, holding-len base m spare)
      (find_place_lem
        (length (preamble m ++ (encode_options 0 m.options ++ (encode_payload m.payload ++ spare)))
          + 1)
        goes_on (length (encode m)) (preamble m) m.options m.payload spare
        (zeroth (4 + length m.token)) small (omega (arith, length-preamble m)) (length-encode m)
        v.options_sorted all
        (omega (
          arith,
          length-append (preamble m)
              (encode_options 0 m.options ++ (encode_payload m.payload ++ spare)),
          length-append (encode_options 0 m.options) (encode_payload m.payload ++ spare),
          length-le-encode_options 0 m.options,
        )))
