-- ===== src/Coap/Reader/Rounds.antt =====
-- One round of the loop of `coap_get_option_by_num` in picocoap/src/coap.c, on any packet: what
-- is decoded does not depend on the option number before, and the round ends the loop or goes on.
use libexositecoap.Common.{
  ℕ, suc, ◌+◌, ◌≤◌, ◌<◌, ◌≡◌, ◌≢◌, ◌⊎◌, refl, sym, ◌∙◌, List, u16, sub64, arith, Exec, ok, fault,
  stuck, inl, inr,
}
use libexositecoap.Coap.Pdu.{Pdu, CoapOption, CoapError, ce_none, ce_found_payload_marker, at}
use libexositecoap.Coap.Header.{OptVars, decode_header, coap_decode_option}
use libexositecoap.Coap.Reader.{
  option_start, option_result, Round, coap_get_option, by_num_round, by_num_loop, no_vars, finished,
  again,
}
use libexositecoap.Coap.Reader.Loop.{loop_again, loop_finished}

pub ok≢stuck {ℓ} : {A : Type ℓ} (a : A) → ok a ≢ stuck
ok≢stuck a e = cc

pub leb_or : (a b : ℕ) → (a ≤ b) ⊎ (b < a)
leb_or a b = grind arith

pub place_of : (w num : ℕ) → ((w ≡ 0) ⊎ (num < w)) ⊎ ((1 ≤ w) × (w ≤ num))
place_of w num = grind arith

pub CoapError-cases : (err : CoapError) → (err ≡ ce_none) ⊎ (err ≢ ce_none)
CoapError-cases ce_none = inl refl
CoapError-cases err = inr (λ e. cc)

-- What a run comes to.
pub Exec-cases {ℓ} :
    {A : Type ℓ} (run : Exec A) → ((value : A) × (run ≡ ok value)) ⊎ ((run ≡ fault) ⊎ (run ≡ stuck))
Exec-cases (ok value) = inl (value, refl)
Exec-cases fault = inr (inl refl)
Exec-cases stuck = inr (inr refl)

module _ (bytes : List ℕ) (ptr pkt_len : ℕ) where
  -- `coap_decode_option` decodes the same whatever the number before is.
  decode_shift :
      (o : OptVars)
      → coap_decode_option bytes ptr pkt_len no_vars ≡ ok (ce_none, o)
      → (vars : OptVars)
      → coap_decode_option bytes ptr pkt_len vars
        ≡ ok (ce_none, record { num = u16 (vars.num + o.num); len = o.len; val = o.val })
  unfolding coap_decode_option decode_header
  decode_shift o e vars = grind arith

  decode_fault :
      coap_decode_option bytes ptr pkt_len no_vars ≡ fault
      → (vars : OptVars) → coap_decode_option bytes ptr pkt_len vars ≡ fault
  unfolding coap_decode_option decode_header
  decode_fault e vars = grind arith

  decode_error :
      (err : CoapError) (o : OptVars)
      → err ≢ ce_none
      → coap_decode_option bytes ptr pkt_len no_vars ≡ ok (err, o)
      → (vars : OptVars) → coap_decode_option bytes ptr pkt_len vars ≡ ok (err, vars)
  unfolding coap_decode_option decode_header
  decode_error err o n e vars = grind arith

option_result_error :
    (p : Pdu) (ptr : ℕ) (err : CoapError) (o : OptVars)
    → err ≢ ce_none
    → (option_result p ptr err o).num ≡ 0
unfolding option_result
option_result_error p ptr ce_none o n = absurd (n refl)
option_result_error p ptr ce_found_payload_marker o n = ground arith
option_result_error p ptr err o n = refl

-- A round at the offset `x`, from an option with any number.
module _ (p : Pdu) (x : ℕ) (last : CoapOption) (start : option_start p last ≡ ok x) where
  pub get_option_fault :
      coap_decode_option p.bytes x (sub64 p.len x) no_vars ≡ fault → coap_get_option p last ≡ fault
  unfolding coap_get_option
  get_option_fault e = ground (
    arith,
    start,
    decode_fault p.bytes x (sub64 p.len x) e (record { num = last.num; len = 0; val = 0 }),
  )

  pub get_option_error :
      (err : CoapError) (o : OptVars)
      → err ≢ ce_none
      → coap_decode_option p.bytes x (sub64 p.len x) no_vars ≡ ok (err, o)
      → (r : CoapOption) × (coap_get_option p last ≡ ok r) × (r.num ≡ 0)
  unfolding coap_get_option
  get_option_error err o n e =
      let vars : OptVars = record { num = last.num; len = 0; val = 0 } in
      (
        option_result p x err vars,
        ground (arith, start, decode_error p.bytes x (sub64 p.len x) err o n e vars),
        option_result_error p x err vars n,
      )

  pub get_option_next :
      (o : OptVars)
      → coap_decode_option p.bytes x (sub64 p.len x) no_vars ≡ ok (ce_none, o)
      → coap_get_option p last
        ≡ ok (record { num = u16 (last.num + o.num); len = o.len; val = at o.val })
  unfolding coap_get_option option_result
  get_option_next o e = ground (
    arith,
    start,
    decode_shift p.bytes x (sub64 p.len x) o e (record { num = last.num; len = 0; val = 0 }),
  )

Round-cases :
    (r : Round) → ((result : CoapOption) × (r ≡ finished result)) ⊎ ((j : ℕ) × (r ≡ again j))
Round-cases (finished result) = inl (result, refl)
Round-cases (again j) = inr (j, refl)

pub loop_fault :
    (p : Pdu) (num occ fuel i : ℕ) (last : CoapOption)
    → coap_get_option p last ≡ fault
    → by_num_loop (suc fuel) p num occ i last ≢ stuck
unfolding by_num_loop
loop_fault p num occ fuel i last e = ground (arith, e)

module _ (p : Pdu) (num occ : ℕ) (fuel i : ℕ) (last option : CoapOption)
    (got : coap_get_option p last ≡ ok option) where
  -- The loop ends at an option whose number is 0 or too large.
  pub loop_ends :
      1 ≤ num
      → (option.num ≡ 0) ⊎ (num < option.num)
      → by_num_loop (suc fuel) p num occ i last ≢ stuck
  unfolding by_num_round by_num_loop
  loop_ends one h = ground (arith, got)

  -- A round ends the loop or goes on behind the option.
  pub loop_goes :
      (by_num_loop (suc fuel) p num occ i last ≢ stuck)
      ⊎ ((j : ℕ) × (by_num_loop (suc fuel) p num occ i last ≡ by_num_loop fuel p num occ j option))
  loop_goes = elim (Round-cases (by_num_round num occ i option)) [
    | inl (result, e) ↦
        inl
          (λ s. ok≢stuck result (sym (loop_finished fuel p num occ i last option got result e) ∙ s))
    | inr (j, e) ↦ inr (j, loop_again fuel p num occ i last option got j e)
  ]
