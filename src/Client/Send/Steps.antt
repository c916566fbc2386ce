-- ===== src/Client/Send/Steps.antt =====
-- What one pass of `exo_process_active_ops` does to an operation.
use libexositecoap.Common.{
  ℕ, ◌≡◌, ◌≤◌, ◌⊎◌, inl, inr, >>=-eq-ok, ◌+◌, refl, ap, List, [], ◌∷◌, arith, ok, subst, sym,
}
use libexositecoap.Coap.Pdu.{Pdu}
use libexositecoap.Pal.{Pal}
use libexositecoap.Client.State.{Client}
use libexositecoap.Client.Op.{
  Op, RequestType, RequestState, exo_null, exo_write, exo_read, exo_subscribe, exo_activate,
  request_null, request_new, request_pending, request_subscribed, request_sub_ack,
  request_sub_ack_new, request_success, request_error,
}
use libexositecoap.Client.Send.{
  sent_request, send_new, sent_again, send_again, timed_out, check_timeout, send_ack, active_op,
  active_ops, exo_process_active_ops,
}

-- The states that a pass can lead to, by the type of the operation.
pub data Next : RequestType → RequestState → RequestState → Type 0 where
  stay : (t : RequestType) (s : RequestState) → Next t s s
  sent : (t : RequestType) → Next t request_new request_pending
  given_up : (t : RequestType) → Next t request_pending request_error
  given_up_late : (t : RequestType) → Next t request_subscribed request_error
  renewed : Next exo_subscribe request_pending request_new
  renewed_late : Next exo_subscribe request_subscribed request_new
  acknowledged : (t : RequestType) → Next t request_sub_ack request_subscribed
  acknowledged_new : (t : RequestType) → Next t request_sub_ack_new request_success

-- The operation with other bookkeeping.
unfoldable pub rewritten : Op → RequestState → ℕ → ℕ → ℕ → ℕ → Op
rewritten op state timeout mid token retries = record op {
  state = state;
  timeout = timeout;
  mid = mid;
  token = token;
  retries = retries;
}

-- The two operations differ in the state, the message's id and token, the timeout and the count
-- of retries only.
pub SameRequest : Op → Op → Type 0
SameRequest op op' = op' ≡ rewritten op op'.state op'.timeout op'.mid op'.token op'.retries

pub SameRequest-type : (op op' : Op) → SameRequest op op' → op'.type ≡ op.type
unfolding SameRequest rewritten
SameRequest-type op op' same = ap (λ (o : Op). o.type) same

-- The operation is in its state still or in the given one, and its count of retries is what it was
-- or at most 4.
Moved : Op → Op → RequestState → Type 0
Moved op op' s =
    ((op'.state ≡ op.state) ⊎ (op'.state ≡ s))
    × SameRequest op op'
    × ((op'.retries ≡ op.retries) ⊎ (op'.retries ≤ 4))

-- What a pass makes of an operation.
pub record Passed (op op' : Op) : Type 0 where
  pub next : Next op.type op.state op'.state
  pub same : SameRequest op op'
  pub count : (op'.retries ≡ op.retries) ⊎ (op'.retries ≤ 4)

Next-of :
    {t : RequestType} {s s' : RequestState} (u : RequestState)
    → (s' ≡ s) ⊎ (s' ≡ u)
    → Next t s u
    → Next t s s'
Next-of {t = t} {s = s} u (inl e) n = subst (λ x. Next t s x) (sym e) (stay t s)
Next-of {t = t} {s = s} u (inr e) n = subst (λ x. Next t s x) (sym e) n

passed : {op op' : Op} (u : RequestState) → Moved op op' u → Next op.type op.state u → Passed op op'
unfolding Moved
passed u (to, same, count) n = record { next = Next-of u to n; same = same; count = count }

module _ {W : Type 0} (pal : Pal W) (op op' : Op) (c' : Client W) (p' : Pdu) where
  sent_request-result :
      (c : Client W) (p : Pdu) (r : ℕ)
      → sent_request pal c p op r ≡ ok (op', p', c')
      → Moved op op' request_pending
  unfolding sent_request rewritten SameRequest Moved
  sent_request-result c p r e = ground arith

  send_ack-result :
      (c : Client W) (p : Pdu) (next : RequestState)
      → send_ack pal next c p op ≡ ok (op', p', c')
      → Moved op op' next
  unfolding send_ack rewritten SameRequest Moved
  send_ack-result c p next e = ground arith

  sent_again-result :
      (c : Client W) (p : Pdu) (r : ℕ)
      → sent_again pal c p op r ≡ ok (op', p', c')
      → (op'.state ≡ op.state) × SameRequest op op' × (op'.retries ≤ op.retries + 1)
  unfolding sent_again rewritten SameRequest Moved
  sent_again-result c p r e = ground arith

  send_new-result :
      (c : Client W) (p : Pdu) (t : RequestType)
      → op.type ≡ t
      → send_new pal t c p op ≡ ok (op', p', c')
      → Moved op op' request_pending
  unfolding send_new rewritten SameRequest Moved
  send_new-result c p exo_null h e = ground arith
  send_new-result c p exo_write h e = grind (arith, sent_request-result)
  send_new-result c p exo_read h e = grind (arith, sent_request-result)
  send_new-result c p exo_subscribe h e = grind (arith, sent_request-result)
  send_new-result c p exo_activate h e = grind (arith, sent_request-result)

  send_again-result :
      (c : Client W) (p : Pdu) (t : RequestType)
      → send_again pal t c p op ≡ ok (op', p', c')
      → Moved op op' request_error
  unfolding send_again rewritten SameRequest Moved
  send_again-result c p t e = grind (arith, sent_again-result)

  -- At a timeout a subscription starts again, and any other request is sent again or given up.
  timed_out-result :
      (c : Client W) (p : Pdu) (t : RequestType)
      → timed_out pal t c p op ≡ ok (op', p', c')
      → (Moved op op' request_error) ⊎ ((t ≡ exo_subscribe) × Moved op op' request_new)
  unfolding timed_out Moved rewritten SameRequest
  timed_out-result c p exo_null e = ground arith
  timed_out-result c p exo_write e = inl (send_again-result c p exo_write e)
  timed_out-result c p exo_read e = inl (send_again-result c p exo_read e)
  timed_out-result c p exo_subscribe e = ground arith
  timed_out-result c p exo_activate e = inl (send_again-result c p exo_activate e)

  check_timeout-result :
      (now : ℕ) (c : Client W) (p : Pdu)
      → check_timeout pal now c p op ≡ ok (op', p', c')
      → (Moved op op' request_error) ⊎ ((op.type ≡ exo_subscribe) × Moved op op' request_new)
  unfolding check_timeout Moved rewritten SameRequest
  check_timeout-result now c p e = grind (arith, timed_out-result c p op.type)

  check_timeout-Passed :
      (now : ℕ) (c : Client W) (p : Pdu)
      → Next op.type op.state request_error
      → Next exo_subscribe op.state request_new
      → check_timeout pal now c p op ≡ ok (op', p', c')
      → Passed op op'
  check_timeout-Passed now c p failed again e = elim (check_timeout-result now c p e) [
    | inl m ↦ passed request_error m failed
    | inr (t, m) ↦ passed request_new m (subst (λ x. Next x op.state request_new) (sym t) again)
  ]

  active_op-Passed :
      (s : RequestState) (now : ℕ) (c : Client W) (p : Pdu)
      → op.state ≡ s
      → active_op pal s now c p op ≡ ok (op', p', c')
      → Passed op op'
  unfolding active_op Moved rewritten SameRequest
  active_op-Passed request_new now c p h e =
      passed request_pending (send_new-result c p op.type refl e)
        (subst (λ x. Next op.type x request_pending) (sym h) (sent op.type))
  active_op-Passed request_subscribed now c p h e =
      check_timeout-Passed now c p
        (subst (λ x. Next op.type x request_error) (sym h) (given_up_late op.type))
        (subst (λ x. Next exo_subscribe x request_new) (sym h) renewed_late) e
  active_op-Passed request_pending now c p h e =
      check_timeout-Passed now c p
        (subst (λ x. Next op.type x request_error) (sym h) (given_up op.type))
        (subst (λ x. Next exo_subscribe x request_new) (sym h) renewed) e
  active_op-Passed request_sub_ack_new now c p h e =
      passed request_success (send_ack-result c p request_success e)
        (subst (λ x. Next op.type x request_success) (sym h) (acknowledged_new op.type))
  active_op-Passed request_sub_ack now c p h e =
      passed request_subscribed (send_ack-result c p request_subscribed e)
        (subst (λ x. Next op.type x request_subscribed) (sym h) (acknowledged op.type))
  active_op-Passed request_null now c p h e = passed op.state (ground arith) (stay op.type op.state)
  active_op-Passed request_success now c p h e =
      passed op.state (ground arith) (stay op.type op.state)
  active_op-Passed request_error now c p h e =
      passed op.state (ground arith) (stay op.type op.state)

-- The operations of two lists, one by one.
pub data Each (R : Op → Op → Type 0) : List Op → List Op → Type 0 where
  none_left : Each R [] []
  and_then : {x y : Op} {xs ys : List Op} → R x y → Each R xs ys → Each R (x ∷ xs) (y ∷ ys)

ok-first {ℓ κ} : {A : Type ℓ} {B : Type κ} {x y : A × B} → ok x ≡ ok y → x.0 ≡ y.0
ok-first {x = (a, b)} {y = (a', b')} e = cc

module _ {W : Type 0} (pal : Pal W) where
  active_ops-Passed :
      (now : ℕ) (c c' : Client W) (p : Pdu) (ops ops' : List Op)
      → active_ops pal now c p ops ≡ ok (ops', c')
      → Each Passed ops ops'
  unfolding active_ops
  active_ops-Passed now c c' p [] ops' e = subst (λ x. Each Passed [] x) (ok-first e) none_left
  active_ops-Passed now c c' p (op ∷ ops) ops' e =
      let ((op₁, p₁, c₁), e₁, e₂) = >>=-eq-ok (active_op pal op.state now c p op) _ e in
      let ((ops₂, c₂), e₃, e₄) = >>=-eq-ok (active_ops pal now c₁ p₁ ops) _ e₂ in
      subst (λ x. Each Passed (op ∷ ops) x) (ok-first e₄)
        (and_then (active_op-Passed pal op op₁ c₁ p₁ op.state now c p refl e₁)
          (active_ops-Passed now c₁ c₂ p₁ ops ops₂ e₃))

  -- If a pass over the active operations has a result, their number and their order are kept. Each
  -- keeps its type, its alias, its value buffer, its observe number and its token length; its
  -- state stays or moves along one edge of `Next`; and its count of retries stays or is at most 4.
  pub process_active_ops-Passed :
      (c c' : Client W) (p : Pdu) (ops ops' : List Op)
      → exo_process_active_ops pal c p ops ≡ ok (ops', c')
      → Each Passed ops ops'
  unfolding exo_process_active_ops
  process_active_ops-Passed c c' p ops ops' e = active_ops-Passed _ _ c' p ops ops' e
