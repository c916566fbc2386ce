-- ===== src/Client/History/Invariant.antt =====
-- What holds of the operations of src/exosite.c in every history of calls and passes.
use libexositecoap.Common.{
  ℕ, zero, suc, ◌≡◌, inl, inr, refl, ap, ◌∙◌, sym, subst, List, [], ◌∷◌, ◌++◌, All, length, Bool,
  true, false, arith, ok,
}
use libexositecoap.Coap.Pdu.{Pdu}
use libexositecoap.Pal.{Pal}
use libexositecoap.Client.State.{
  Client, DeviceState, uninitialized, initialized, good, bad_cik, ExoState,
}
use libexositecoap.Client.Op.{Op, queue_activate}
use libexositecoap.Client.Receive.{take_message, scan_ops, reactivate, receive_loop}
use libexositecoap.Client.Receive.Match.{take_message-cases, scan_ops-cases}
use libexositecoap.Client.Send.{exo_process_active_ops}
use libexositecoap.Client.Send.Steps.{Each, none_left, and_then, Passed, process_active_ops-Passed}
use libexositecoap.Client.Operate.{activate_first, operate_good, operate_in, exo_operate}
use libexositecoap.Client.History.{to_activate, Step, inited, called, operated, Reach, here, next}
use libexositecoap.Client.History.Sound.{IsSound, Passed-IsSound, Call-IsSound}
use libexositecoap.Client.History.Claims.{on_datagram-IsSound}
use mathlib.Core.Option.{some}

-- As many operations as before, and each sound.
Kept : List Op → List Op → Type 0
Kept ops ops' = (length ops' ≡ length ops) × All IsSound ops'

Kept-same : (xs : List Op) → All IsSound xs → Kept xs xs
unfolding Kept
Kept-same xs h = (refl, h)

-- The head and the others.
Kept-cons : (x y : Op) (xs ys : List Op) → IsSound y → Kept xs ys → Kept (x ∷ xs) (y ∷ ys)
unfolding Kept
Kept-cons x y xs ys h (e, hs) = (ap suc e, (h, hs))

Kept-then : (xs ys zs : List Op) → Kept xs ys → (All IsSound ys → Kept ys zs) → Kept xs zs
unfolding Kept
Kept-then xs ys zs (e, h) f = let (e', h') = f h in (e' ∙ e, h')

All-change :
    (x y : Op) (before behind : List Op)
    → (IsSound x → IsSound y)
    → All IsSound (before ++ (x ∷ behind))
    → Kept (before ++ (x ∷ behind)) (before ++ (y ∷ behind))
All-change x y [] behind f (h, hs) = Kept-cons x y behind behind (f h) (Kept-same behind hs)
All-change x y (b ∷ before) behind f (h, hs) =
    Kept-cons b b _ _ h (All-change x y before behind f hs)

Each-Kept : {ops ops' : List Op} → Each Passed ops ops' → All IsSound ops → Kept ops ops'
Each-Kept none_left h = Kept-same [] tt
Each-Kept (and_then {x = x} {y = y} {xs = xs} {ys = ys} p rest) (h, hs) =
    Kept-cons x y xs ys (Passed-IsSound x y p h) (Each-Kept rest hs)

module _ {W : Type 0} (pal : Pal W) where
  take_message-Kept :
      (c c' : Client W) (p : Pdu) (mtype : ℕ) (ops ops' : List Op) (u : Bool)
      → take_message pal mtype p c ops ≡ ok (some (ops', c', u))
      → All IsSound ops
      → Kept ops ops'
  unfolding take_message
  take_message-Kept c c' p mtype [] ops' u e h = absurd (ground arith)
  take_message-Kept c c' p mtype (op ∷ ops) ops' u e (h, hs) =
      elim (take_message-cases pal c c' p mtype op ops ops' u e) [
        | inl (op', taken, shape) ↦
            subst (λ t. Kept (op ∷ ops) t) (sym shape)
              (Kept-cons op op' ops ops (on_datagram-IsSound pal c c' p op op' u mtype taken h)
                (Kept-same ops hs))
        | inr (rest, by, again, shape) ↦
            subst (λ t. Kept (op ∷ ops) t) (sym shape)
              (Kept-cons op op ops rest h (take_message-Kept c c' p mtype ops rest u again hs))
      ]

  queued-Kept :
      (op : Op) (ops : List Op)
      → All IsSound ops
      → IsSound op
      → Kept (op ∷ ops) (queue_activate op ∷ ops)
  queued-Kept op ops hs h =
      Kept-cons op (queue_activate op) ops ops (Call-IsSound (to_activate op) h) (Kept-same ops hs)

  reactivate-Kept :
      (u : Bool) (c : Client W) (ops : List Op)
      → All IsSound ops
      → Kept ops (reactivate pal u ops c).0
  unfolding reactivate
  reactivate-Kept false c ops h = Kept-same ops h
  reactivate-Kept true c [] h = Kept-same [] h
  reactivate-Kept true c (op ∷ ops) (h, hs) =
      grind (arith, Kept-same (op ∷ ops) (h, hs), queued-Kept op ops hs h)

  -- A datagram was taken, and what follows keeps the operations.
  taken-Kept :
      (c c' : Client W) (p : Pdu) (mtype : ℕ) (ops ops' end : List Op)
      → scan_ops pal mtype p c ops ≡ ok (some (ops', c'))
      → All IsSound ops
      → (All IsSound ops' → Kept ops' end)
      → Kept ops end
  taken-Kept c c' p mtype ops ops' end e h f =
      let (ops₁, c₁, u, taken, left) = scan_ops-cases pal c c' p mtype ops ops' e in
      Kept-then ops ops₁ end (take_message-Kept c c₁ p mtype ops ops₁ u taken h) (λ h₁.
        Kept-then ops₁ ops' end
          (subst (λ (r : List Op × Client W). Kept ops₁ r.0) left (reactivate-Kept u c₁ ops₁ h₁)) f)

  receive_loop-Kept :
      (fuel : ℕ) (c c' : Client W) (p : Pdu) (ops ops' : List Op)
      → receive_loop pal fuel c p ops ≡ ok (ops', c')
      → All IsSound ops
      → Kept ops ops'
  unfolding receive_loop
  receive_loop-Kept zero c c' p ops ops' e h = absurd (ground arith)
  receive_loop-Kept (suc fuel) c c' p ops ops' e h =
      grind (arith, taken-Kept, receive_loop-Kept fuel, Kept-same)

  activate_first-Kept :
      (c c' : Client W) (ops ops' : List Op)
      → activate_first pal c ops ≡ ok (ops', c')
      → All IsSound ops
      → Kept ops ops'
  unfolding activate_first
  activate_first-Kept c c' [] ops' e h = absurd (ground arith)
  activate_first-Kept c c' (op ∷ ops) ops' e (h, hs) =
      grind (arith, Kept-same (op ∷ ops) (h, hs), queued-Kept op ops hs h)

  process_active-Kept :
      (c c' : Client W) (p : Pdu) (ops ops' : List Op)
      → exo_process_active_ops pal c p ops ≡ ok (ops', c')
      → All IsSound ops
      → Kept ops ops'
  process_active-Kept c c' p ops ops' e h =
      Each-Kept (process_active_ops-Passed pal c c' p ops ops' e) h

  operate_good-Kept :
      (fuel : ℕ) (p : Pdu) (c c' : Client W) (ops ops' : List Op) (s : ExoState)
      → operate_good pal fuel p c ops ≡ ok (s, ops', c')
      → All IsSound ops
      → Kept ops ops'
  unfolding operate_good
  operate_good-Kept fuel p c c' ops ops' s e h =
      grind (arith, receive_loop-Kept, Kept-then, process_active-Kept)

  operate_in-Kept :
      (d : DeviceState) (fuel : ℕ) (p : Pdu) (c c' : Client W) (ops ops' : List Op) (s : ExoState)
      → operate_in pal d fuel p c ops ≡ ok (s, ops', c')
      → All IsSound ops
      → Kept ops ops'
  unfolding operate_in
  operate_in-Kept uninitialized fuel p c c' ops ops' s e h = grind (arith, Kept-same ops h)
  operate_in-Kept good fuel p c c' ops ops' s e h = operate_good-Kept fuel p c c' ops ops' s e h
  operate_in-Kept initialized fuel p c c' ops ops' s e h =
      grind (arith, activate_first-Kept, operate_good-Kept, Kept-then)
  operate_in-Kept bad_cik fuel p c c' ops ops' s e h =
      grind (arith, activate_first-Kept, operate_good-Kept, Kept-then)

  Step-Kept :
      {c c' : Client W} {ops ops' : List Op}
      → Step pal c ops c' ops'
      → All IsSound ops
      → Kept ops ops'
  Step-Kept (called c before behind {op = op} {op' = op'} k) h =
      All-change op op' before behind (Call-IsSound k) h
  Step-Kept (inited vendor model serial ops e) h = Kept-same ops h
  Step-Kept (operated fuel pdu {c = c} {c' = c'} {ops = ops} {ops' = ops'} {s = s} e) h =
      operate_in-Kept c.device_state fuel pdu c c' ops ops' s (unfold exo_operate in e) h

  -- Let each operation be sound: its state is null if and only if it has no request, only a
  -- subscription is subscribed or acknowledges a notification, and it was sent again at most 4
  -- times. Then after any calls on the operations, in any states, and any calls of `exo_init` and
  -- `exo_operate` that have results, on any platform, there are as many operations and each is sound.
  pub Reach-IsSound :
      {c : Client W} {ops : List Op} {c' : Client W} {ops' : List Op}
      → All IsSound ops
      → Reach pal c ops c' ops'
      → (length ops' ≡ length ops) × All IsSound ops'
  unfolding Kept
  Reach-IsSound h here = (refl, h)
  Reach-IsSound h (next {ops₁ = ops₁} r step) =
      let (e, h₁) = Reach-IsSound h r in let (e', h') = Step-Kept step h₁ in (e' ∙ e, h')
