-- ===== src/Client/Receive/Denied.antt =====
-- Which answers make `exo_process_waiting_datagrams` of src/exosite.c activate the device again.
use libexositecoap.Common.{ℕ, ◌≡◌, inl, inr, Bool, arith, ok, true, false, ◌↔◌}
use libexositecoap.Coap.Pdu.{Pdu, cc_unauthorized, ct_ack}
use libexositecoap.Coap.Fields.{coap_get_code, coap_get_code_class}
use libexositecoap.Pal.{Pal}
use libexositecoap.Client.State.{Client}
use libexositecoap.Client.Op.{
  Op, RequestType, exo_null, exo_write, exo_read, exo_subscribe, exo_activate,
}
use libexositecoap.Client.Handlers.{
  claim, on_notify, on_ack, on_reset, on_success, on_read, on_subscribe, subscribed, on_activate,
  on_answer, on_failure, on_observed, on_content, notified,
}
use libexositecoap.Client.Receive.{on_datagram}
use libexositecoap.Client.Receive.Match.{on_datagram-cases}

-- An answer with the code CC_UNAUTHORIZED.
abbrev pub Denied : Pdu → ℕ → Type 0
Denied p mtype = (mtype ≡ ct_ack) × (coap_get_code p ≡ ok cc_unauthorized)

module _ {W : Type 0} (pal : Pal W) (c c' : Client W) (p : Pdu) where
  on_success-flag :
      (t : RequestType) (op op' : Op) (u : Bool)
      → on_success pal t p c op ≡ ok (claim op' c' u)
      → u ≡ false
  unfolding on_success on_read on_subscribe subscribed on_activate
  on_success-flag exo_null op op' u e = cc
  on_success-flag exo_write op op' u e = ground arith
  on_success-flag exo_read op op' u e = ground arith
  on_success-flag exo_subscribe op op' u e = ground arith
  on_success-flag exo_activate op op' u e = ground arith

  on_ack-flag :
      (op op' : Op) (u : Bool)
      → on_ack pal p c op ≡ ok (claim op' c' u)
      → (u ≡ true) ↔ (coap_get_code p ≡ ok cc_unauthorized)
  unfolding on_ack on_answer on_failure coap_get_code coap_get_code_class
  on_ack-flag op op' u e = grind (arith, on_success-flag)

  on_notify-flag : (op op' : Op) (u : Bool) → on_notify pal p c op ≡ ok (claim op' c' u) → u ≡ false
  unfolding on_notify on_observed on_content notified
  on_notify-flag op op' u e = ground arith

  on_reset-flag : (op op' : Op) (u : Bool) → on_reset pal p c op ≡ ok (claim op' c' u) → u ≡ false
  unfolding on_reset
  on_reset-flag op op' u e = ground arith

  -- The flag says that the answer is CC_UNAUTHORIZED.
  pub on_datagram-flag :
      (mtype : ℕ) (op op' : Op) (u : Bool)
      → on_datagram pal mtype p c op ≡ ok (claim op' c' u)
      → (u ≡ true) ↔ Denied p mtype
  on_datagram-flag mtype op op' u e =
      elim (on_datagram-cases pal c c' p mtype op (claim op' c' u) (λ h. cc) e) [
        | inl (t, h) ↦ let off = on_notify-flag op op' u h in ground (arith, off, t)
        | inr (inl (t, h)) ↦ let same = on_ack-flag op op' u h in ground (arith, same, t)
        | inr (inr (t, h)) ↦ let off = on_reset-flag op op' u h in ground (arith, off, t)
      ]

  on_ack-client : (op op' : Op) → on_ack pal p c op ≡ ok (claim op' c' true) → c' ≡ c
  unfolding on_ack on_answer on_failure
  on_ack-client op op' e = grind (arith, on_success-flag)

  -- Such an answer changes none of the static variables.
  pub on_datagram-client :
      (mtype : ℕ) (op op' : Op) → on_datagram pal mtype p c op ≡ ok (claim op' c' true) → c' ≡ c
  on_datagram-client mtype op op' e =
      elim (on_datagram-cases pal c c' p mtype op (claim op' c' true) (λ h. cc) e) [
        | inl (t, h) ↦ let off = on_notify-flag op op' true h in absurd (ground (arith, off))
        | inr (inl (t, h)) ↦ on_ack-client op op' h
        | inr (inr (t, h)) ↦ let off = on_reset-flag op op' true h in absurd (ground (arith, off))
      ]
