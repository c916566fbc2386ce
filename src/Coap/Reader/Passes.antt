-- ===== src/Coap/Reader/Passes.antt =====
-- `coap_get_option_by_num` of picocoap/src/coap.c ends on every packet: a pass over the options
-- moves on from option to option, and one that starts again at the first option, as `option_start`
-- does for a pointer outside of the packet, does so with a larger option number.
use libexositecoap.Common.{
  ℕ, zero, suc, ◌+◌, ◌*◌, ◌≤◌, ◌<◌, ◌≡◌, ◌≢◌, ◌⊎◌, refl, sym, ap, ◌∙◌, length, u16, sub64, arith,
  Exec, ok, fault, stuck, inl, inr, ◌==◌, Bool-cases, ◌||◌, ltb,
}
use libexositecoap.Memory.Local.{peek-ne-stuck}
use libexositecoap.Coap.Pdu.{Pdu, CoapOption, CoapError, ce_none, at}
use libexositecoap.Coap.Fields.{coap_get_tkl}
use libexositecoap.Coap.Header.{OptVars, coap_decode_option}
use libexositecoap.Coap.Header.Decode.{
  decode_option_grows, decode_option_inside, decode_option-ne-stuck,
}
use libexositecoap.Coap.Reader.{
  first_option, within, option_start, coap_get_option, no_option, by_num_loop,
  coap_get_option_by_num, no_vars,
}
use libexositecoap.Coap.Reader.Rounds.{place_of, CoapError-cases, Exec-cases, loop_fault}
use libexositecoap.Coap.Reader.Pass.{
  Starts, Restarts, Passes, pass_fault, pass_error, pass_done, pass_again, pass_on,
}

first_option-ne-stuck : (p : Pdu) → first_option p ≢ stuck
unfolding first_option coap_get_tkl
first_option-ne-stuck p = ground (arith, peek-ne-stuck p.bytes 0)

module _ (p : Pdu) (num occ : ℕ) (one : 1 ≤ num) (half : num < 32768) where
  -- The place behind an option: the first option again, or a place further on.
  place :
      (o : OptVars)
      → ((n : ℕ)
          → 1 ≤ n
          → option_start p (record { num = n; len = o.len; val = at o.val }) ≡ first_option p)
        ⊎ ((n : ℕ)
            → 1 ≤ n
            → option_start p (record { num = n; len = o.len; val = at o.val }) ≡ ok (o.val + o.len))
  unfolding option_start within
  place o = elim (Bool-cases (ltb p.len (o.val + o.len) || (o.val + o.len) == 0)) [
    | inl outside ↦ inl (λ n h. ground (arith, outside))
    | inr inside ↦ inr (λ n h. ground (arith, inside))
  ]

  pass_some :
      (m x v : ℕ) (o : OptVars)
      → v ≤ num
      → coap_decode_option p.bytes x (sub64 p.len x) no_vars ≡ ok (ce_none, o)
      → ((z : ℕ) → x < z → u16 (v + o.num) ≤ num → Passes p num occ m z (u16 (v + o.num)))
      → Passes p num occ (suc m) x v
  pass_some m x v o low e rest = elim (place_of (u16 (v + o.num)) num) [
    | inl done ↦ inl (pass_done p num occ one half m x v low o e done)
    | inr (some_left, within_num) ↦ elim (place o) [
      | inl first ↦ inr (
        u16 (v + o.num),
        some_left,
        pass_again p num occ one half m x v low o e some_left within_num first,
      )
      | inr next ↦
          pass_on p num occ one half m x v low o e some_left within_num (o.val + o.len) next (
            rest (o.val + o.len)
              (omega (arith, decode_option_grows p.bytes x (sub64 p.len x) no_vars o e)) within_num)
    ]
  ]

  pass_read :
      (m x v : ℕ) (r : Exec (CoapError × OptVars))
      → v ≤ num
      → coap_decode_option p.bytes x (sub64 p.len x) no_vars ≡ r
      → ((o : OptVars)
          → coap_decode_option p.bytes x (sub64 p.len x) no_vars ≡ ok (ce_none, o)
          → (z : ℕ) → x < z
          → u16 (v + o.num) ≤ num
          → Passes p num occ m z (u16 (v + o.num)))
      → Passes p num occ (suc m) x v
  pass_read m x v fault low e rest = inl (pass_fault p num occ one half m x v low e)
  pass_read m x v stuck low e rest =
      absurd (decode_option-ne-stuck p.bytes x (sub64 p.len x) no_vars e)
  pass_read m x v (ok (err, o)) low e rest = elim (CoapError-cases err) [
    | inl none_here ↦
        let got : coap_decode_option p.bytes x (sub64 p.len x) no_vars ≡ ok (ce_none, o) =
          e ∙ ap (λ k. ok (k, o)) none_here in
        pass_some m x v o low got (rest o got)
    | inr failed ↦ inl (pass_error p num occ one half m x v low err o failed e)
  ]

  pass : (m x v : ℕ) → length p.bytes ≤ m + x → v ≤ num → Passes p num occ (suc m) x v
  pass zero x v enough low =
      pass_read 0 x v (coap_decode_option p.bytes x (sub64 p.len x) no_vars) low refl
        (λ o e z h within_num.
          absurd (omega (arith, decode_option_inside p.bytes x (sub64 p.len x) no_vars o e)))
  pass (suc m) x v enough low =
      pass_read (suc m) x v (coap_decode_option p.bytes x (sub64 p.len x) no_vars) low refl
        (λ o e z h within_num. pass m z (u16 (v + o.num)) (omega arith) within_num)

  -- The passes from the first option on, each with a larger number than the one before.
  passes :
      (rounds x e : ℕ)
      → first_option p ≡ ok x
      → 1 ≤ e
      → Restarts p num occ rounds x 0 e
      → (k b budget i : ℕ) (last : CoapOption) → num < b + k
      → k * rounds ≤ budget
      → Starts p num occ b last
      → by_num_loop budget p num occ i last ≢ stuck
  passes rounds x e first e_one restarts zero b budget i last above enough (same, low, start)
        stopped =
      absurd (omega arith)
  passes rounds x e first e_one restarts (suc k) b budget i last above enough (same, low, start)
        stopped =
      elim (restarts b last (k * rounds) budget i (omega arith) low (omega arith) (start ∙ first)) [
        | inl done ↦ done stopped
        | inr (budget', j, next, left, goes, starts) ↦
            passes rounds x e first e_one restarts k (b + e) budget' j next (omega arith) left
              starts (sym goes ∙ stopped)
      ]

  start_none : option_start p no_option ≡ first_option p
  unfolding option_start
  start_none = refl

  from_fault :
      (budget i : ℕ)
      → 1 ≤ budget
      → first_option p ≡ fault
      → by_num_loop budget p num occ i no_option ≢ stuck
  unfolding coap_get_option option_start
  from_fault zero i some_left e = absurd (omega arith)
  from_fault (suc budget) i some_left e =
      loop_fault p num occ budget i no_option (ground (arith, e))

  -- The loop from the start, with the fuel that it is given.
  from_start :
      (budget i : ℕ)
      → (num + 1) * (length p.bytes + 1) ≤ budget
      → by_num_loop budget p num occ i no_option ≢ stuck
  from_start budget i enough = elim (Exec-cases (first_option p)) [
    | inl (x, first) ↦ elim (pass (length p.bytes) x 0 (omega arith) (omega arith)) [
      | inl ends ↦ ends no_option budget i (omega (arith, enough)) refl (start_none ∙ first)
      | inr (e, e_one, restarts) ↦
          passes (suc (length p.bytes)) x e first e_one restarts (num + 1) 0 budget i no_option
            (omega arith) (omega (arith, enough)) (refl, omega arith, start_none)
    ]
    | inr (inl e) ↦ from_fault budget i (omega (arith, enough)) e
    | inr (inr e) ↦ absurd (first_option-ne-stuck p e)
  ]

-- For an option number from 1 to 2^15 - 1, `coap_get_option_by_num` ends on every packet, the ones
-- that are not well-formed included, with a result or at an access outside the buffer.
pub get_option_by_num-ne-stuck :
    (p : Pdu) (num occ : ℕ) → 1 ≤ num → num < 32768 → coap_get_option_by_num p num occ ≢ stuck
unfolding coap_get_option_by_num
get_option_by_num-ne-stuck p num occ one half =
    from_start p num occ one half ((num + 1) * (length p.bytes + 1)) 0 (omega arith)
