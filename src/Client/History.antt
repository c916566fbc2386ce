-- ===== src/Client/History.antt =====
-- The ways in which a program may use src/exosite.c: `exo_init`, the calls on its operations, and
-- passes of `exo_operate`, in any order.
pub mod Sound
pub mod Claims
pub mod Invariant
pub mod Kept
pub mod Taken
pub mod Device
use libexositecoap.Common.{ℕ, ◌≡◌, List, ◌∷◌, ◌++◌, ok}
use libexositecoap.Coap.Pdu.{Pdu}
use libexositecoap.Pal.{Pal}
use libexositecoap.Client.State.{Client, ExoError, ExoState}
use libexositecoap.Client.Op.{
  Op, queue_write, queue_read, queue_subscribe, queue_activate, exo_op_init, exo_op_done,
}
use libexositecoap.Client.Operate.{exo_init, exo_operate}
use mathlib.Core.Option.{Option}

-- A call of the program on one operation, whatever the state of the operation is.
pub data Call : Op → Op → Type 0 where
  to_init : (op : Op) → Call op exo_op_init
  to_write : (op : Op) (alias value : Option (List ℕ)) → Call op (queue_write op alias value)
  to_read :
      (op : Op) (alias value : Option (List ℕ)) (max : ℕ) → Call op (queue_read op alias value max)
  to_subscribe :
      (op : Op) (alias value : Option (List ℕ)) (max : ℕ)
      → Call op (queue_subscribe op alias value max)
  to_activate : (op : Op) → Call op (queue_activate op)
  to_done : (op : Op) → Call op (exo_op_done op)

module _ {W : Type 0} (pal : Pal W) where
  -- The client and the operations. A pass has any number of rounds and any array for its message.
  pub data Step : Client W → List Op → Client W → List Op → Type 0 where
    called :
        (c : Client W) (before behind : List Op) {op op' : Op}
        → Call op op'
        → Step c (before ++ (op ∷ behind)) c (before ++ (op' ∷ behind))
    inited :
        (vendor model serial : Option (List ℕ)) {c c' : Client W} (ops : List Op) {e : ExoError}
        → exo_init pal c vendor model serial ≡ ok (e, c')
        → Step c ops c' ops
    operated :
        (fuel : ℕ) (pdu : Pdu) {c c' : Client W} {ops ops' : List Op} {s : ExoState}
        → exo_operate pal fuel pdu c ops ≡ ok (s, ops', c')
        → Step c ops c' ops'

  pub data Reach (c : Client W) (ops : List Op) : Client W → List Op → Type 0 where
    here : Reach c ops c ops
    next :
        {c₁ c₂ : Client W} {ops₁ ops₂ : List Op}
        → Reach c ops c₁ ops₁
        → Step c₁ ops₁ c₂ ops₂
        → Reach c ops c₂ ops₂
