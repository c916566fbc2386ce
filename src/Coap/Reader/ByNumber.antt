-- ===== src/Coap/Reader/ByNumber.antt =====
-- `coap_get_option_by_num` of picocoap/src/coap.c and the specification `find_option`.
use libexositecoap.Common.{
  ℕ, zero, suc, ◌+◌, ◌-◌, ◌*◌, ◌^◌, ◌≤◌, ◌<◌, ◌≡◌, ◌⊎◌, refl, sym, subst, ap, ◌∙◌, List, [], ◌∷◌,
  ◌++◌, length, length-append, arith, ok, inl, inr,
}
use libexositecoap.Coap.Pdu.{Pdu, CoapOption}
use libexositecoap.Coap.Wire.{
  Opt, Message, IsEncodable, IsOptions, option_header, encode_options, encode_payload, encode,
  holding,
}
use libexositecoap.Coap.Wire.Layout.{
  encode_option, length-le-encode_options, preamble, length-preamble, length-encode, holding-bytes,
}
use libexositecoap.Coap.Fields.Laws.{get_tkl-holding}
use libexositecoap.Coap.Reader.{
  first_option, option_start, coap_get_option, no_option, by_num_loop, coap_get_option_by_num,
}
use libexositecoap.Coap.Reader.Options.{
  find_option, IsFound, find_option-above, get_option_last, IsAhead, front, front_got, front_value,
  IsAhead-next,
}
use libexositecoap.Coap.Reader.Loop.{
  round_more, round_hit, round_past, round_skip, round_end, loop_again, loop_finished,
}
use mathlib.Core.Option.{Option, some, none}

order : (a b : ℕ) → (a < b) ⊎ ((a ≡ b) ⊎ (b < a))
order a b = grind arith

-- The loop ends with a result that fits the specification.
abbrev Finds : ℕ → Pdu → ℕ → ℕ → ℕ → CoapOption → Option (List ℕ) → Type 0
Finds fuel p num occ i prev v =
    (r : CoapOption) × (by_num_loop fuel p num occ i prev ≡ ok r) × IsFound p num v r

-- The specification at an option in front.
module _ (num k : ℕ) (o : Opt) (os : List Opt) where
  find_hit : o.num ≡ num → find_option num 0 (o ∷ os) ≡ some o.val
  find_hit e = ground arith

  find_more : o.num ≡ num → find_option num (suc k) (o ∷ os) ≡ find_option num k os
  find_more e = ground arith

find_skip :
    (num k : ℕ) (o : Opt) (os : List Opt)
    → o.num < num
    → find_option num k (o ∷ os) ≡ find_option num k os
find_skip num zero o os h = ground arith
find_skip num (suc k) o os h = ground arith

find_past :
    (num k : ℕ) (o : Opt) (os : List Opt)
    → num < o.num
    → IsOptions o.num os
    → find_option num k (o ∷ os) ≡ none
find_past num zero o os h sorted = ground (arith, find_option-above num 0 o.num os h sorted)
find_past num (suc k) o os h sorted =
    ground (arith, find_option-above num (suc k) o.num os h sorted)

-- A round that goes on, or that ends, carries a result over.
module _ (p : Pdu) (num occ i : ℕ) (fuel : ℕ) (prev : CoapOption) (v : Option (List ℕ)) where
  carry :
      (j : ℕ) (next : CoapOption) (w : Option (List ℕ))
      → by_num_loop (suc fuel) p num occ i prev ≡ by_num_loop fuel p num occ j next
      → v ≡ w
      → Finds fuel p num occ j next w
      → Finds (suc fuel) p num occ i prev v
  carry j next w e ev (r, run, found) = (r, e ∙ run, subst (λ x. IsFound p num x r) (sym ev) found)

  conclude :
      (r : CoapOption) (w : Option (List ℕ))
      → by_num_loop (suc fuel) p num occ i prev ≡ ok r
      → v ≡ w
      → IsFound p num w r
      → Finds (suc fuel) p num occ i prev v
  conclude r w e ev found = (r, e, subst (λ x. IsFound p num x r) (sym ev) found)

-- One round at the option `o`, over the results of the rounds behind it.
module _ (p : Pdu) (small : p.len < 2 ^ 64) (num fuel occ i : ℕ) (prev : CoapOption) (o : Opt)
    (os : List Opt) (pl : Option (List ℕ)) (spare pre : List ℕ) (offset : ℕ)
    (a : IsAhead p prev (o ∷ os) pl spare pre offset) (top : occ < 255)
    (rest : (k j : ℕ)
      → occ ≡ j + k
      → Finds fuel p num occ j (front prev o offset) (find_option num k os)) where
  got : coap_get_option p prev ≡ ok (front prev o offset)
  got = front_got p small prev o os pl spare pre offset a

  by_num_hit :
      (k : ℕ)
      → occ ≡ i + k
      → o.num ≡ num
      → Finds (suc fuel) p num occ i prev (find_option num k (o ∷ os))
  by_num_hit zero split same =
      conclude p num occ i fuel prev _ (front prev o offset) (some o.val)
        (loop_finished fuel p num occ i prev _ got _
          (round_hit num occ i _ (omega arith) top same (omega arith)))
        (find_hit num 0 o os same)
        (
          offset + length (option_header (o.num - prev.num) (length o.val)),
          ground arith,
          front_value p small prev o os pl spare pre offset a,
        )
  by_num_hit (suc k) split same =
      carry p num occ i fuel prev _ (i + 1) (front prev o offset) (find_option num k os)
        (loop_again fuel p num occ i prev _ got (i + 1)
          (round_more num occ i _ (omega arith) top same (omega arith)))
        (find_more num k o os same) (rest k (i + 1) (omega arith))

  by_num_step :
      (k : ℕ) → occ ≡ i + k → Finds (suc fuel) p num occ i prev (find_option num k (o ∷ os))
  by_num_step k split = elim (order o.num num) [
    | inl lo ↦
        carry p num occ i fuel prev _ i (front prev o offset) (find_option num k os)
          (loop_again fuel p num occ i prev _ got i
            (round_skip num occ i _ (omega arith) top lo a.positive.0))
          (find_skip num k o os lo) (rest k i split)
    | inr (inl same) ↦ by_num_hit k split same
    | inr (inr hi) ↦
        conclude p num occ i fuel prev _ no_option none
          (loop_finished fuel p num occ i prev _ got no_option
            (round_past num occ i _ (omega arith) top hi))
          (find_past num k o os hi a.sorted.3) refl
  ]

module _ (p : Pdu) (small : p.len < 2 ^ 64) (num : ℕ) (one : 1 ≤ num) (pl : Option (List ℕ))
    (spare : List ℕ) where
  -- With `k` more options of the number to skip.
  by_num_loop_lem :
      (fuel : ℕ) (os : List Opt) (k occ i : ℕ) (prev : CoapOption) (pre : List ℕ) (offset : ℕ)
      → IsAhead p prev os pl spare pre offset
      → occ ≡ i + k
      → occ < 255
      → length os < fuel
      → Finds fuel p num occ i prev (find_option num k os)
  by_num_loop_lem zero os k occ i prev pre offset a split top enough = absurd (omega arith)
  by_num_loop_lem (suc fuel) [] k occ i prev pre offset a split top enough =
      let (r, got, e) =
        get_option_last p small prev pre offset a.start a.here pl spare
          (unfold encode_options in a.bytes) (unfold encode_options in omega (arith, a.whole)) in
      (
        r,
        loop_finished fuel p num occ i prev r got r (round_end num occ i r (omega arith) top one e),
        e,
      )
  by_num_loop_lem (suc fuel) (o ∷ os) k occ i prev pre offset a split top enough =
      by_num_step p small num fuel occ i prev o os pl spare pre offset a top
        (λ k' j s.
          by_num_loop_lem fuel os k' occ j (front prev o offset) (pre ++ encode_option prev.num o)
            (offset + length (option_header (o.num - prev.num) (length o.val)) + length o.val)
            (IsAhead-next p small prev o os pl spare pre offset a) s top (omega arith))
        k split

-- In a buffer that holds an encodable message of less than 2^64 bytes whose option numbers are
-- not 0, `coap_get_option_by_num` for a number above 0 and an occurrence below 255 has a result:
-- the number, the length and the place of the value of the option with that number that has `occ`
-- such before it, or the number 0 if there is none.
pub get_option_by_num-holding :
    (base : ℕ) (m : Message) (spare : List ℕ) (num occ : ℕ)
    → IsEncodable m
    → IsOptions 1 m.options
    → length (encode m) < 2 ^ 64
    → 1 ≤ num
    → occ < 255
    → (r : CoapOption) × (coap_get_option_by_num (holding base m spare) num occ ≡ ok r)
      × IsFound (holding base m spare) num (find_option num occ m.options) r
unfolding coap_get_option_by_num
get_option_by_num-holding base m spare num occ v positive small one top =
    let p : Pdu = holding base m spare in
    let e : p.bytes
        ≡ preamble m ++ (encode_options 0 m.options ++ (encode_payload m.payload ++ spare)) =
      holding-bytes base m spare in
    by_num_loop_lem p (unfold holding in small) num one m.payload spare
      ((num + 1) * (length p.bytes + 1)) m.options occ occ 0 no_option (preamble m)
      (4 + length m.token)
      (record {
        start = unfold option_start first_option in ground (arith, get_tkl-holding base m spare v);
        here = sym (length-preamble m);
        bytes = e;
        whole = unfold holding in length-encode m;
        sorted = v.options_sorted;
        positive = positive;
      })
      (omega arith) top
      (grind (
        arith,
        ap (length {A = ℕ}) e,
        length-append (preamble m)
            (encode_options 0 m.options ++ (encode_payload m.payload ++ spare)),
        length-append (encode_options 0 m.options) (encode_payload m.payload ++ spare),
        length-le-encode_options 0 m.options,
      ))
