-- ===== src/Examples/Print/Options.antt =====
-- The loop over the options in `coap_pretty_print` of picocoap/examples/posix/client.c.
use libexositecoap.Common.{
  ℕ, zero, suc, ◌+◌, ◌-◌, ◌%◌, ◌^◌, ◌≤◌, ◌<◌, ◌≡◌, refl, sym, ap, ◌∙◌, List, [], ◌∷◌, ◌++◌, length,
  length-append, append_assoc, sub64, ◌==◌, if◌then◌else◌, arith, ok,
}
use libexositecoap.Memory.{read}
use libexositecoap.Memory.Local.{read-cons, read_here}
use libexositecoap.Coap.Pdu.{Pdu, CoapOption, at}
use libexositecoap.Coap.Wire.{Opt, option_header, encode_options, encode_payload}
use libexositecoap.Coap.Wire.Layout.{
  encode_option, length-encode_option, length-encode_options-cons,
}
use libexositecoap.Coap.Reader.{coap_get_option, no_option, option_result}
use libexositecoap.Coap.Reader.Options.{
  end_option, get_option_end, IsAhead, front, front_got, front_value, IsAhead-next,
}
use libexositecoap.Examples.Print.{
  Line, option_line, value_line, payload_line, text_at, print_text, print_value, print_options,
}
use mathlib.Core.Option.{Option, none, some}

-- The characters in front of the first 0.
pub text_of : List ℕ → List ℕ
text_of [] = []
text_of (b ∷ bs) = if b == 0 then [] else b ∷ text_of bs

-- The line of a value that is not empty.
abbrev pub value_lines : (List ℕ → ℕ → Line) → List ℕ → List Line
value_lines line [] = []
value_lines line (b ∷ bs) = line (text_of (b ∷ bs)) (length (b ∷ bs)) ∷ []

abbrev pub option_lines : List Opt → List Line
option_lines [] = []
option_lines (o ∷ os) = option_line o.num ∷ (value_lines value_line o.val ++ option_lines os)

-- The payload is printed if there is no option.
abbrev pub payload_lines : List Opt → Option (List ℕ) → List Line
payload_lines [] (some v) = value_lines payload_line v
payload_lines [] none = []
payload_lines (o ∷ os) pl = []

text_at-read :
    (v bytes : List ℕ) (i : ℕ)
    → read bytes i (length v) ≡ ok v
    → text_at (length v) bytes i ≡ ok (text_of v)
unfolding text_at text_of
text_at-read [] bytes i e = refl
text_at-read (x ∷ xs) bytes i e =
    let (head, more) = read-cons bytes i x xs e in
    rw head (ground (arith, text_at-read xs bytes (i + 1) more))

print_text-read :
    (p : Pdu) (i : ℕ) (v : List ℕ)
    → read p.bytes i (length v) ≡ ok v
    → length v < 2 ^ 31
    → print_text p i (length v) ≡ ok (text_of v)
unfolding print_text
print_text-read p i v e small =
    let n : length v % 2 ^ 32 ≡ length v = omega arith in
    rw n (ground (arith, text_at-read v p.bytes i e))

print_value-at :
    (line : List ℕ → ℕ → Line) (p : Pdu) (num i : ℕ) (v : List ℕ)
    → read p.bytes i (length v) ≡ ok v
    → length v < 2 ^ 31
    → print_value line p (record { num = num; len = length v; val = at i })
      ≡ ok (value_lines line v)
unfolding print_value
print_value-at line p num i [] e small = refl
print_value-at line p num i (b ∷ bs) e small = ground (arith, print_text-read p i (b ∷ bs) e small)

-- Behind an option with a number nothing is left to print.
print_value-end :
    (p : Pdu) (num offset : ℕ) (pl : Option (List ℕ))
    → 1 ≤ num
    → print_value payload_line p (end_option p num offset pl) ≡ ok []
unfolding print_value option_result
print_value-end p num offset none h = refl
print_value-end p num offset (some v) h = ground arith

end_option-num :
    (p : Pdu) (num offset : ℕ) (pl : Option (List ℕ)) → (end_option p num offset pl).num ≡ 0
unfolding option_result
end_option-num p num offset none = refl
end_option-num p num offset (some v) = ground arith

print_options-last :
    (fuel : ℕ) (p : Pdu) (prev opt : CoapOption)
    → coap_get_option p prev ≡ ok opt
    → opt.num ≡ 0
    → print_options (suc fuel) p prev ≡ ok ([], opt)
unfolding print_options
print_options-last fuel p prev opt got e = rw got (rw e refl)

print_options-next :
    (fuel : ℕ) (p : Pdu) (prev opt end : CoapOption) (value rest : List Line)
    → coap_get_option p prev ≡ ok opt
    → 1 ≤ opt.num
    → print_value value_line p opt ≡ ok value
    → print_options fuel p opt ≡ ok (rest, end)
    → print_options (suc fuel) p prev ≡ ok (option_line opt.num ∷ (value ++ rest), end)
unfolding print_options
print_options-next fuel p prev opt end value rest got one val more = ground (arith, got, val, more)

-- The options ahead are printed, and what the loop leaves prints as `last`.
abbrev pub Prints : ℕ → Pdu → CoapOption → List Opt → List Line → Type 0
Prints fuel p prev os last =
    (end : CoapOption) × (print_options fuel p prev ≡ ok (option_lines os, end))
    × (print_value payload_line p end ≡ ok last)

-- Without an option before it, the payload is printed.
print_value-marker :
    (p : Pdu)
    → p.len < 2 ^ 31
    → (pl : Option (List ℕ)) (spare pre : List ℕ) (offset : ℕ)
    → IsAhead p no_option [] pl spare pre offset
    → print_value payload_line p (end_option p 0 offset pl) ≡ ok (payload_lines [] pl)
unfolding option_result encode_options encode_payload print_value
print_value-marker p small none spare pre offset a = refl
print_value-marker p small (some v) spare pre offset a =
    let n : sub64 (sub64 p.len offset) 1 ≡ length v = omega (arith, a.whole, a.here) in
    let there : read p.bytes (offset + 1) (length v) ≡ ok v =
      ap (λ (t : List ℕ). read t (offset + 1) (length v))
        (a.bytes ∙ sym (append_assoc pre (0xff ∷ []) (v ++ spare)))
      ∙ read_here (pre ++ (0xff ∷ [])) (offset + 1)
          (omega (arith, a.here, length-append pre (0xff ∷ []))) v spare in
    ap (λ (k : ℕ). print_value payload_line p (record { num = 0; len = k; val = at (offset + 1) }))
      n
    ∙ print_value-at payload_line p 0 (offset + 1) v there (omega (arith, a.whole))

module _ (p : Pdu) (small : p.len < 2 ^ 31) (pl : Option (List ℕ)) (spare : List ℕ) where
  print_options_step :
      (fuel : ℕ) (prev : CoapOption) (o : Opt) (os : List Opt) (pre : List ℕ) (offset : ℕ)
      → IsAhead p prev (o ∷ os) pl spare pre offset
      → Prints fuel p (front prev o offset) os []
      → Prints (suc fuel) p prev (o ∷ os) []
  print_options_step fuel prev o os pre offset a (end, run, last) =
      let wide : p.len < 2 ^ 64 = omega arith in
      (
        end,
        print_options-next fuel p prev (front prev o offset) end (value_lines value_line o.val)
            (option_lines os) (front_got p wide prev o os pl spare pre offset a) a.positive.0
            (print_value-at value_line p o.num _ o.val
              (front_value p wide prev o os pl spare pre offset a)
              (omega (
                arith,
                a.whole,
                length-encode_options-cons prev.num o os,
                length-encode_option prev.num o,
              )))
            run,
        last,
      )

  -- The loop behind an option with a number.
  print_options_lem :
      (fuel : ℕ) (os : List Opt) (pre : List ℕ) (prev : CoapOption) (offset : ℕ)
      → IsAhead p prev os pl spare pre offset
      → 1 ≤ prev.num
      → length os < fuel
      → Prints fuel p prev os []
  print_options_lem zero os pre prev offset a one enough = absurd (omega arith)
  print_options_lem (suc fuel) [] pre prev offset a one enough = (
    end_option p prev.num offset pl,
    print_options-last fuel p prev _
        (get_option_end p (omega arith) prev pre offset a.start a.here pl spare
          (unfold encode_options in a.bytes) (unfold encode_options in omega (arith, a.whole)))
        (end_option-num p prev.num offset pl),
    print_value-end p prev.num offset pl one,
  )
  print_options_lem (suc fuel) (o ∷ os) pre prev offset a one enough =
      print_options_step fuel prev o os pre offset a (
        print_options_lem fuel os (pre ++ encode_option prev.num o) (front prev o offset)
          (offset + length (option_header (o.num - prev.num) (length o.val)) + length o.val)
          (IsAhead-next p (omega arith) prev o os pl spare pre offset a) a.positive.0 (omega arith))

  -- The whole loop, from the first option.
  pub print_options-whole :
      (fuel : ℕ) (os : List Opt) (pre : List ℕ) (offset : ℕ)
      → IsAhead p no_option os pl spare pre offset
      → length os < fuel
      → Prints fuel p no_option os (payload_lines os pl)
  print_options-whole zero os pre offset a enough = absurd (omega arith)
  print_options-whole (suc fuel) [] pre offset a enough = (
    end_option p 0 offset pl,
    print_options-last fuel p no_option _
        (get_option_end p (omega arith) no_option pre offset a.start a.here pl spare
          (unfold encode_options in a.bytes) (unfold encode_options in omega (arith, a.whole)))
        (end_option-num p 0 offset pl),
    print_value-marker p small pl spare pre offset a,
  )
  print_options-whole (suc fuel) (o ∷ os) pre offset a enough =
      print_options_step fuel no_option o os pre offset a (
        print_options_lem fuel os (pre ++ encode_option no_option.num o) (front no_option o offset)
          (offset + length (option_header (o.num - no_option.num) (length o.val)) + length o.val)
          (IsAhead-next p (omega arith) no_option o os pl spare pre offset a) a.positive.0
          (omega arith))
