-- ===== src/Coap/Reader/Options.antt =====
-- `coap_get_option` and `coap_get_option_by_num` on a buffer that holds a message.
use libexositecoap.Common.{
  ℕ, zero, suc, ◌+◌, ◌-◌, ◌^◌, ◌≤◌, ◌<◌, ◌≡◌, refl, ap, ◌∙◌, List, [], ◌∷◌, ◌++◌, length,
  length-append, arith, ok, sub64, ◌==◌, if◌then◌else◌,
}
use libexositecoap.Memory.{read}
use libexositecoap.Coap.Pdu.{Pdu, CoapOption, at, ce_found_payload_marker}
use libexositecoap.Coap.Wire.{Opt, IsOptions, option_header, encode_options, encode_payload}
use libexositecoap.Coap.Wire.Layout.{
  encode_option, length-encode_option, length-encode_options-cons, past_option,
  decode_option-option, end_error, decode_option-payload, read_value,
}
use libexositecoap.Coap.Header.{OptVars, coap_decode_option}
use libexositecoap.Coap.Header.Build.{option_header_bounds}
use libexositecoap.Coap.Reader.{within, option_start, option_result, coap_get_option, no_option}
use mathlib.Core.Option.{Option, some, none}

-- The value of the option with the number `num` that has `occ` such before it.
abbrev pub find_option : ℕ → ℕ → List Opt → Option (List ℕ)
find_option num occ [] = none
find_option num zero (o ∷ os) = if o.num == num then some o.val else find_option num zero os
find_option num (suc k) (o ∷ os) = find_option num (if o.num == num then k else suc k) os

-- What the code returns for it: the value's place in the buffer, or the number 0.
abbrev pub IsFound : Pdu → ℕ → Option (List ℕ) → CoapOption → Type 0
IsFound p num none r = r.num ≡ 0
IsFound p num (some v) r =
    (i : ℕ) × (r ≡ record { num = num; len = length v; val = at i })
    × (read p.bytes i (length v) ≡ ok v)

pub find_option-above :
    (num occ last : ℕ) (os : List Opt)
    → num < last
    → IsOptions last os
    → find_option num occ os ≡ none
find_option-above num zero last [] h sorted = refl
find_option-above num (suc occ) last [] h sorted = refl
find_option-above num zero last (o ∷ os) h sorted =
    ground (arith, find_option-above num zero o.num os (omega arith) sorted.3)
find_option-above num (suc occ) last (o ∷ os) h sorted =
    ground (arith, find_option-above num (suc occ) o.num os (omega arith) sorted.3)

-- What `coap_get_option` returns behind the options: what it makes of the payload marker, or nothing.
abbrev pub end_option : Pdu → ℕ → ℕ → Option (List ℕ) → CoapOption
end_option p num offset none = no_option
end_option p num offset (some v) =
    option_result p offset ce_found_payload_marker (record { num = num; len = 0; val = 0 })

module _ (p : Pdu) (small : p.len < 2 ^ 64) (prev : CoapOption) (pre : List ℕ) (offset : ℕ)
    (start : option_start p prev ≡ ok offset) (here : offset ≡ length pre) where
  -- At an option `coap_get_option` returns its number, and where its value lies.
  get_option_next :
      (o : Opt) (os : List Opt) (tail : List ℕ)
      → p.bytes ≡ pre ++ (encode_options prev.num (o ∷ os) ++ tail)
      → offset < p.len
      → IsOptions prev.num (o ∷ os)
      → coap_get_option p prev
        ≡ ok (record {
          num = o.num;
          len = length o.val;
          val = at (offset + length (option_header (o.num - prev.num) (length o.val)));
        })
  unfolding coap_get_option option_result
  get_option_next o os tail e left sorted =
      let vars : OptVars = record { num = prev.num; len = 0; val = 0 } in
      ground (
        arith,
        start,
        ap (λ (t : List ℕ). coap_decode_option t offset (sub64 p.len offset) vars) e,
        decode_option-option pre prev.num o os tail offset (sub64 p.len offset) vars here
            (omega arith) sorted,
      )

  -- Behind the options it returns `end_option`.
  pub get_option_end :
      (pl : Option (List ℕ)) (spare : List ℕ)
      → p.bytes ≡ pre ++ (encode_payload pl ++ spare)
      → p.len ≡ length pre + length (encode_payload pl)
      → coap_get_option p prev ≡ ok (end_option p prev.num offset pl)
  unfolding coap_get_option option_result encode_payload end_error
  get_option_end none spare e whole =
      let vars : OptVars = record { num = prev.num; len = 0; val = 0 } in
      let left : sub64 p.len offset ≡ 0 = omega arith in
      ground (
        arith,
        start,
        left,
        ap (λ (t : List ℕ). coap_decode_option t offset 0 vars) e,
        decode_option-payload pre none spare offset vars here,
      )
  get_option_end (some v) spare e whole =
      let vars : OptVars = record { num = prev.num; len = 0; val = 0 } in
      let left : sub64 p.len offset ≡ suc (length v) = omega arith in
      ground (
        arith,
        start,
        left,
        ap (λ (t : List ℕ). coap_decode_option t offset (suc (length v)) vars) e,
        decode_option-payload pre (some v) spare offset vars here,
      )

  -- It has the number 0.
  pub get_option_last :
      (pl : Option (List ℕ)) (spare : List ℕ)
      → p.bytes ≡ pre ++ (encode_payload pl ++ spare)
      → p.len ≡ length pre + length (encode_payload pl)
      → (r : CoapOption) × (coap_get_option p prev ≡ ok r) × (r.num ≡ 0)
  unfolding option_result
  get_option_last none spare e whole = (_, get_option_end none spare e whole, refl)
  get_option_last (some v) spare e whole =
      (end_option p prev.num offset (some v), get_option_end (some v) spare e whole, ground arith)

-- Behind an option with a number the next one begins.
option_start-next :
    (p : Pdu) (num len i : ℕ)
    → 1 ≤ num
    → 1 ≤ i
    → i + len ≤ p.len
    → option_start p (record { num = num; len = len; val = at i }) ≡ ok (i + len)
unfolding option_start within
option_start-next p num len i h k fits = ground arith

IsOptions-one : (last : ℕ) (os : List Opt) → 1 ≤ last → IsOptions last os → IsOptions 1 os
IsOptions-one last [] h sorted = tt
IsOptions-one last (o ∷ os) h sorted = (omega arith, sorted.1, sorted.2, sorted.3)

-- What is still to be read, at the start of a round: the options `os` behind `prev`.
pub record IsAhead (p : Pdu) (prev : CoapOption) (os : List Opt) (pl : Option (List ℕ))
    (spare pre : List ℕ) (offset : ℕ) : Type 0 where
  pub start : option_start p prev ≡ ok offset
  pub here : offset ≡ length pre
  pub bytes : p.bytes ≡ pre ++ (encode_options prev.num os ++ (encode_payload pl ++ spare))
  pub whole : p.len ≡ length pre + length (encode_options prev.num os) + length (encode_payload pl)
  pub sorted : IsOptions prev.num os
  pub positive : IsOptions 1 os

-- The option in front, as the code returns it.
abbrev pub front : CoapOption → Opt → ℕ → CoapOption
front prev o offset = record {
  num = o.num;
  len = length o.val;
  val = at (offset + length (option_header (o.num - prev.num) (length o.val)));
}

module _ (p : Pdu) (small : p.len < 2 ^ 64) (prev : CoapOption) (o : Opt) (os : List Opt)
    (pl : Option (List ℕ)) (spare pre : List ℕ) (offset : ℕ)
    (a : IsAhead p prev (o ∷ os) pl spare pre offset) where
  head_size : 1 ≤ length (option_header (o.num - prev.num) (length o.val))
  head_size = (option_header_bounds (o.num - prev.num) (length o.val)).0

  size :
      length (encode_options prev.num (o ∷ os))
      ≡ length (option_header (o.num - prev.num) (length o.val))
        + length o.val
        + length (encode_options o.num os)
  size = omega (arith, length-encode_options-cons prev.num o os, length-encode_option prev.num o)

  pub front_got : coap_get_option p prev ≡ ok (front prev o offset)
  front_got =
      get_option_next p small prev pre offset a.start a.here o os (encode_payload pl ++ spare)
        a.bytes (omega (arith, a.here, a.whole, size, head_size)) a.sorted

  pub front_value :
      read p.bytes
        (offset + length (option_header (o.num - prev.num) (length o.val)))
        (length o.val)
      ≡ ok o.val
  front_value =
      ap
        (λ (t : List ℕ).
          read t (offset + length (option_header (o.num - prev.num) (length o.val))) (length o.val))
        a.bytes
      ∙ read_value pre prev.num o os (encode_payload pl ++ spare)
          (offset + length (option_header (o.num - prev.num) (length o.val)))
          (omega (arith, a.here))

  pub IsAhead-next :
      IsAhead p
        (front prev o offset)
        os
        pl
        spare
        (pre ++ encode_option prev.num o)
        (offset + length (option_header (o.num - prev.num) (length o.val)) + length o.val)
  IsAhead-next = record {
    start =
        option_start-next p o.num (length o.val)
          (offset + length (option_header (o.num - prev.num) (length o.val))) a.positive.0
          (omega (arith, head_size)) (omega (arith, a.here, a.whole, size));
    here = omega (
      arith,
      a.here,
      length-append pre (encode_option prev.num o),
      length-encode_option prev.num o,
    );
    bytes = a.bytes ∙ past_option pre prev.num o os (encode_payload pl ++ spare);
    whole = omega (
      arith,
      a.whole,
      size,
      length-append pre (encode_option prev.num o),
      length-encode_option prev.num o,
    );
    sorted = a.sorted.3;
    positive = IsOptions-one o.num os a.positive.0 a.positive.3;
  }
