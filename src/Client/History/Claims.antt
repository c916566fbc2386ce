-- ===== src/Client/History/Claims.antt =====
-- What the operation that takes a datagram becomes.
use libexositecoap.Common.{ℕ, ◌≡◌, ◌⊎◌, inl, inr, List, Bool, arith, ok}
use libexositecoap.Coap.Pdu.{Pdu}
use libexositecoap.Pal.{Pal}
use libexositecoap.Client.State.{Client}
use libexositecoap.Client.Op.{
  Op, RequestType, RequestState, exo_null, exo_write, exo_read, exo_subscribe, exo_activate,
  request_pending, request_subscribed, request_sub_ack, request_sub_ack_new, request_success,
  request_error, exo_op_init,
}
use libexositecoap.Client.Handlers.{
  claim, notified, on_content, on_observed, on_notify, on_read, subscribed, on_subscribe,
  on_activate, on_success, on_failure, on_answer, on_ack, on_reset,
}
use libexositecoap.Client.Receive.{on_datagram}
use libexositecoap.Client.History.Sound.{IsSound}
use libexositecoap.Client.Receive.Match.{
  on_notify-claim, on_ack-claim, on_reset-claim, on_datagram-cases,
}

-- The operation keeps its type and its retries, and its state or goes to the given one, or it is free.
abbrev Ends : Op → Op → RequestState → RequestState → Type 0
Ends op op' s s' =
    (op' ≡ exo_op_init)
    ⊎ ((op'.type ≡ op.type)
        × (op'.retries ≡ op.retries)
        × ((op'.state ≡ op.state)
            ⊎ (op'.state ≡ request_error)
            ⊎ (op'.state ≡ s)
            ⊎ (op'.state ≡ s')))

module _ {W : Type 0} (pal : Pal W) (c c' : Client W) (p : Pdu) (op op' : Op) (u : Bool) where
  notified-Ends :
      (v : List ℕ) (seq : ℕ)
      → notified pal p c op v seq ≡ ok (claim op' c' u)
      → Ends op op' request_sub_ack request_sub_ack_new
  unfolding notified
  notified-Ends v seq e = ground arith

  on_content-Ends :
      on_content pal p c op ≡ ok (claim op' c' u) → Ends op op' request_sub_ack request_sub_ack_new
  unfolding on_content
  on_content-Ends e = grind (arith, notified-Ends)

  on_notify-Ends :
      on_notify pal p c op ≡ ok (claim op' c' u) → Ends op op' request_sub_ack request_sub_ack_new
  unfolding on_notify on_observed
  on_notify-Ends e = grind (arith, on_content-Ends)

  on_read-Ends :
      on_read pal p c op ≡ ok (claim op' c' u) → Ends op op' request_success request_success
  unfolding on_read
  on_read-Ends e = ground arith

  subscribed-Ends :
      (v : List ℕ)
      → subscribed pal p c op v ≡ ok (claim op' c' u)
      → Ends op op' request_success request_success
  unfolding subscribed
  subscribed-Ends v e = ground arith

  on_subscribe-Ends :
      on_subscribe pal p c op ≡ ok (claim op' c' u) → Ends op op' request_success request_success
  unfolding on_subscribe
  on_subscribe-Ends e = grind (arith, subscribed-Ends)

  on_activate-Ends :
      on_activate pal p c op ≡ ok (claim op' c' u) → Ends op op' request_success request_success
  unfolding on_activate
  on_activate-Ends e = ground arith

  on_success-Ends :
      (t : RequestType)
      → on_success pal t p c op ≡ ok (claim op' c' u)
      → Ends op op' request_success request_success
  unfolding on_success
  on_success-Ends exo_null e = cc
  on_success-Ends exo_write e = ground arith
  on_success-Ends exo_read e = on_read-Ends e
  on_success-Ends exo_subscribe e = on_subscribe-Ends e
  on_success-Ends exo_activate e = on_activate-Ends e

  on_ack-Ends :
      on_ack pal p c op ≡ ok (claim op' c' u) → Ends op op' request_success request_success
  unfolding on_ack on_answer on_failure
  on_ack-Ends e = grind (arith, on_success-Ends)

  on_reset-Ends :
      on_reset pal p c op ≡ ok (claim op' c' u) → Ends op op' request_error request_error
  unfolding on_reset
  on_reset-Ends e = ground arith

  -- The operation waits, and ends by its type.
  on_notify-IsSound :
      op.state ≡ request_subscribed
      → IsSound op
      → Ends op op' request_sub_ack request_sub_ack_new
      → IsSound op'
  unfolding IsSound exo_op_init
  on_notify-IsSound e h n = grind arith

  on_ack-IsSound :
      op.state ≡ request_pending
      → IsSound op
      → Ends op op' request_success request_success
      → IsSound op'
  unfolding IsSound exo_op_init
  on_ack-IsSound e h n = grind arith

  on_reset-IsSound :
      (op.state ≡ request_pending) ⊎ (op.state ≡ request_subscribed)
      → IsSound op
      → Ends op op' request_error request_error
      → IsSound op'
  unfolding IsSound exo_op_init
  on_reset-IsSound e h n = grind arith

  -- The operation that takes a datagram stays sound.
  pub on_datagram-IsSound :
      (mtype : ℕ) → on_datagram pal mtype p c op ≡ ok (claim op' c' u) → IsSound op → IsSound op'
  on_datagram-IsSound mtype e h =
      elim (on_datagram-cases pal c c' p mtype op (claim op' c' u) (λ w. cc) e) [
        | inl (t, w) ↦
            on_notify-IsSound (on_notify-claim pal c c' p op op' u w).0 h (on_notify-Ends w)
        | inr (inl (t, w)) ↦ on_ack-IsSound (on_ack-claim pal c c' p op op' u w).0 h (on_ack-Ends w)
        | inr (inr (t, w)) ↦
            on_reset-IsSound (on_reset-claim pal c c' p op op' u w).0 h (on_reset-Ends w)
      ]
