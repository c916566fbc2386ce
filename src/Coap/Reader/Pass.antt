-- ===== src/Coap/Reader/Pass.antt =====
-- One pass of the loop of `coap_get_option_by_num` in picocoap/src/coap.c over the options of any
-- packet, from an offset on: it ends the loop, or starts again with a larger option number.
use libexositecoap.Common.{
  ℕ, zero, suc, ◌+◌, ◌≤◌, ◌<◌, ◌≡◌, ◌≢◌, ◌⊎◌, sym, ◌∙◌, u16, sub64, arith, Exec, ok, fault, stuck,
  inl, inr,
}
use libexositecoap.Coap.Pdu.{Pdu, CoapOption, CoapError, ce_none, at}
use libexositecoap.Coap.Header.{OptVars, coap_decode_option}
use libexositecoap.Coap.Reader.{first_option, option_start, coap_get_option, by_num_loop, no_vars}
use libexositecoap.Coap.Reader.Rounds.{
  leb_or, loop_fault, get_option_error, get_option_next, get_option_fault, loop_ends, loop_goes,
}

module _ (p : Pdu) (num occ : ℕ) where
  abbrev pub Goes : ℕ → ℕ → ℕ → CoapOption → (CoapOption → Type 0) → Type 0
  Goes rounds fuel i last Next =
      (fuel' : ℕ) × (j : ℕ) × (next : CoapOption) × (fuel ≤ fuel')
      × (by_num_loop rounds p num occ i last ≡ by_num_loop fuel' p num occ j next)
      × Next next

  abbrev pub Starts : ℕ → CoapOption → Type 0
  Starts n next = (next.num ≡ n) × (n ≤ num) × (option_start p next ≡ first_option p)

  -- What follows a round is what follows the loop from there.
  pub carry :
      (budget' budget i j : ℕ) (last next : CoapOption) (fuel n : ℕ)
      → by_num_loop budget' p num occ i last ≡ by_num_loop budget p num occ j next
      → (by_num_loop budget p num occ j next ≢ stuck) ⊎ Goes budget fuel j next (Starts n)
      → (by_num_loop budget' p num occ i last ≢ stuck) ⊎ Goes budget' fuel i last (Starts n)
  carry budget' budget i j last next fuel n e (inl ends) = inl (λ s. ends (sym e ∙ s))
  carry budget' budget i j last next fuel n e (inr (fuel', j', next', enough, goes, starts)) =
      inr (fuel', j', next', enough, e ∙ goes, starts)

  -- A pass from the offset `x` with the number `v` ends the loop.
  abbrev pub Ends : ℕ → ℕ → ℕ → Type 0
  Ends rounds x v =
      (last : CoapOption) (budget i : ℕ)
      → rounds ≤ budget
      → last.num ≡ v
      → option_start p last ≡ ok x
      → by_num_loop budget p num occ i last ≢ stuck

  -- With the number `b + v`, it ends the loop or starts again with the number `b + e`.
  abbrev pub Restarts : ℕ → ℕ → ℕ → ℕ → Type 0
  Restarts rounds x v e =
      (b : ℕ) (last : CoapOption) (fuel budget i : ℕ)
      → rounds + fuel ≤ budget
      → b ≤ num
      → last.num ≡ b + v
      → option_start p last ≡ ok x
      → (by_num_loop budget p num occ i last ≢ stuck) ⊎ Goes budget fuel i last (Starts (b + e))

  abbrev pub Passes : ℕ → ℕ → ℕ → Type 0
  Passes rounds x v = Ends rounds x v ⊎ ((e : ℕ) × (1 ≤ e) × Restarts rounds x v e)

  -- The packet read at `x`.
  module _ (one : 1 ≤ num) (half : num < 32768) (m x v : ℕ) (low : v ≤ num) where
    abbrev Reads : Exec (CoapError × OptVars) → Type 0
    Reads r = coap_decode_option p.bytes x (sub64 p.len x) no_vars ≡ r

    pub pass_fault : Reads fault → Ends (suc m) x v
    pass_fault e last zero i enough same start = absurd (omega arith)
    pass_fault e last (suc budget) i enough same start =
        loop_fault p num occ budget i last (get_option_fault p x last start e)

    pub pass_error :
        (err : CoapError) (o : OptVars) → err ≢ ce_none → Reads (ok (err, o)) → Ends (suc m) x v
    pass_error err o n e last zero i enough same start = absurd (omega arith)
    pass_error err o n e last (suc budget) i enough same start =
        let (r, got, none_left) = get_option_error p x last start err o n e in
        loop_ends p num occ budget i last r got one (inl none_left)

    module _ (o : OptVars) (e : Reads (ok (ce_none, o))) where
      pub pass_done : (u16 (v + o.num) ≡ 0) ⊎ (num < u16 (v + o.num)) → Ends (suc m) x v
      pass_done h last zero i enough same start = absurd (omega arith)
      pass_done h last (suc budget) i enough same start =
          loop_ends p num occ budget i last _ (get_option_next p x last start o e) one
            (omega (arith, h))

      -- The option that a round reads behind `last`.
      abbrev behind : CoapOption → CoapOption
      behind last = record { num = u16 (last.num + o.num); len = o.len; val = at o.val }

      module _ (some_left : 1 ≤ u16 (v + o.num)) (within_num : u16 (v + o.num) ≤ num) where
        round :
            (b : ℕ) (last : CoapOption) (budget i : ℕ)
            → b ≤ num
            → last.num ≡ b + v
            → option_start p last ≡ ok x
            → (by_num_loop (suc budget) p num occ i last ≢ stuck)
              ⊎ ((j : ℕ) × (by_num_loop (suc budget) p num occ i last
                    ≡ by_num_loop budget p num occ j (behind last))
                  × (u16 (last.num + o.num) ≡ b + u16 (v + o.num))
                  × (b + u16 (v + o.num) ≤ num))
        round b last budget i low_b same start =
            let moved : u16 (last.num + o.num) ≡ b + u16 (v + o.num) = omega arith in
            let got : coap_get_option p last ≡ ok (behind last) =
              get_option_next p x last start o e in
            elim (leb_or (b + u16 (v + o.num)) num) [
              | inl below ↦ elim (loop_goes p num occ budget i last (behind last) got) [
                | inl ends ↦ inl ends
                | inr (j, goes) ↦ inr (j, goes, moved, below)
              ]
              | inr above ↦ inl (
                  loop_ends p num occ budget i last (behind last) got one
                    (inr (omega (arith, moved, above))))
            ]

        pub pass_again :
            ((n : ℕ)
              → 1 ≤ n
              → option_start p (record { num = n; len = o.len; val = at o.val }) ≡ first_option p)
            → Restarts (suc m) x v (u16 (v + o.num))
        pass_again first b last fuel zero i enough low_b same start = absurd (omega arith)
        pass_again first b last fuel (suc budget) i enough low_b same start =
            elim (round b last budget i low_b same start) [
              | inl ends ↦ inl ends
              | inr (j, goes, moved, below) ↦ inr (
                budget,
                j,
                behind last,
                omega arith,
                goes,
                (moved, below, first (u16 (last.num + o.num)) (omega (arith, moved))),
              )
            ]

        module _ (z : ℕ)
            (next : (n : ℕ)
              → 1 ≤ n
              → option_start p (record { num = n; len = o.len; val = at o.val }) ≡ ok z) where
          pass_behind_last : Ends m z (u16 (v + o.num)) → Ends (suc m) x v
          pass_behind_last ends last zero i enough same start stopped = absurd (omega arith)
          pass_behind_last ends last (suc budget) i enough same start stopped =
              elim (round 0 last budget i (omega arith) (omega arith) start) [
                | inl done ↦ done stopped
                | inr (j, goes, moved, below) ↦
                    ends (behind last) budget j (omega arith) (omega (arith, moved))
                      (next (u16 (last.num + o.num)) (omega (arith, moved))) (sym goes ∙ stopped)
              ]

          pass_behind_again : (w : ℕ) → Restarts m z (u16 (v + o.num)) w → Restarts (suc m) x v w
          pass_behind_again w restarts b last fuel zero i enough low_b same start =
              absurd (omega arith)
          pass_behind_again w restarts b last fuel (suc budget) i enough low_b same start =
              elim (round b last budget i low_b same start) [
                | inl ends ↦ inl ends
                | inr (j, goes, moved, below) ↦
                    carry (suc budget) budget i j last (behind last) fuel (b + w) goes (
                      restarts b (behind last) fuel budget j (omega arith) low_b moved
                        (next (u16 (last.num + o.num)) (omega (arith, moved))))
              ]

          pub pass_on : Passes m z (u16 (v + o.num)) → Passes (suc m) x v
          pass_on (inl ends) = inl (pass_behind_last ends)
          pass_on (inr (w, w_one, restarts)) = inr (w, w_one, pass_behind_again w restarts)
