-- ===== src/Client/History/Sound.antt =====
-- The states that an operation of each type can be in, and the calls on one operation.
use libexositecoap.Common.{◌≡◌, ◌≤◌, inl, inr, refl, ap, ◌∙◌, Bool, true, false, arith}
use libexositecoap.Client.Op.{
  Op, RequestType, RequestState, exo_null, exo_write, exo_read, exo_subscribe, exo_activate,
  request_null, request_new, request_pending, request_success, request_error, queue_write,
  queue_read, queue_subscribe, queue_activate, exo_op_init, exo_op_done, exo_is_op_subscribe,
}
use libexositecoap.Client.Send.Steps.{
  Next, stay, sent, given_up, given_up_late, renewed, renewed_late, acknowledged, acknowledged_new,
  Passed, SameRequest-type,
}
use libexositecoap.Client.History.{
  Call, to_init, to_write, to_read, to_subscribe, to_activate, to_done,
}

-- Only an operation without a request is in the state null, and then always; only a subscription
-- is subscribed or acknowledges.
abbrev pub allowed : RequestType → RequestState → Bool
allowed exo_null request_null = true
allowed exo_null _ = false
allowed exo_subscribe request_null = false
allowed exo_subscribe _ = true
allowed _ request_new = true
allowed _ request_pending = true
allowed _ request_success = true
allowed _ request_error = true
allowed _ _ = false

-- The state fits the type, and there were at most 4 retries.
unfoldable pub IsSound : Op → Type 0
IsSound op = (allowed op.type op.state ≡ true) × (op.retries ≤ 4)

allowed-Next :
    {t : RequestType} {s s' : RequestState} → Next t s s' → allowed t s ≡ true → allowed t s' ≡ true
allowed-Next (stay t s) h = h
allowed-Next (sent exo_null) h = absurd (ground arith)
allowed-Next (sent exo_write) h = refl
allowed-Next (sent exo_read) h = refl
allowed-Next (sent exo_subscribe) h = refl
allowed-Next (sent exo_activate) h = refl
allowed-Next (given_up t) h = ground arith
allowed-Next (given_up_late t) h = ground arith
allowed-Next renewed h = refl
allowed-Next renewed_late h = refl
allowed-Next (acknowledged t) h = ground arith
allowed-Next (acknowledged_new t) h = ground arith

-- A pass over the active operations keeps it.
pub Passed-IsSound : (op op' : Op) → Passed op op' → IsSound op → IsSound op'
unfolding IsSound
Passed-IsSound op op' p (h, n) =
    let t : op'.type ≡ op.type = SameRequest-type op op' p.same in
    (
      ap (λ (x : RequestType). allowed x op'.state) t ∙ allowed-Next p.next h,
      elim p.count [ inl e ↦ omega arith | inr e ↦ e ],
    )

-- A call on an operation keeps it.
pub Call-IsSound : {op op' : Op} → Call op op' → IsSound op → IsSound op'
unfolding IsSound queue_write queue_read queue_subscribe queue_activate exo_op_init exo_op_done
    exo_is_op_subscribe
Call-IsSound (to_init op) h = (refl, omega arith)
Call-IsSound (to_write op alias value) h = (refl, h.1)
Call-IsSound (to_read op alias value max) h = (refl, h.1)
Call-IsSound (to_subscribe op alias value max) h = (refl, h.1)
Call-IsSound (to_activate op) h = (refl, h.1)
Call-IsSound (to_done op) h = ground arith
