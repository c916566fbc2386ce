-- ===== src/Client/Receive/Taken.antt =====
-- What the loop over the operations in `exo_process_waiting_datagrams` of src/exosite.c does, from
-- its start to its end.
use libexositecoap.Common.{
  subst, ℕ, ◌≡◌, ◌⊎◌, inl, inr, refl, ap, ◌∙◌, List, [], ◌∷◌, ◌++◌, All, Bool, arith, ok, true,
  false, ◌↔◌, ◌<◌,
}
use libexositecoap.Coap.Pdu.{Pdu}
use libexositecoap.Pal.{Pal}
use libexositecoap.Client.State.{Client}
use libexositecoap.Client.Op.{Op, exo_null, queue_activate}
use libexositecoap.Client.Handlers.{pass, claim}
use libexositecoap.Client.Receive.{on_datagram, take_message, reactivate, scan_ops}
use mathlib.Core.Option.{some}
use libexositecoap.Client.Receive.Match.{
  Matches, on_datagram-claim, take_message-cases, scan_ops-cases,
}
use libexositecoap.Client.Receive.Denied.{Denied, on_datagram-flag, on_datagram-client}

module _ {W : Type 0} (pal : Pal W) (c c' : Client W) (p : Pdu) where
  claimed-client :
      (mtype : ℕ) (op op' : Op) (u : Bool)
      → on_datagram pal mtype p c op ≡ ok (claim op' c' u)
      → u ≡ true
      → c' ≡ c
  claimed-client mtype op op' true e h = on_datagram-client pal c c' p mtype op op' e
  claimed-client mtype op op' false e h = cc

  -- The operation that took the datagram, the ones before it, and the ones behind it.
  record Taken (mtype : ℕ) (ops ops' : List Op) (u : Bool) : Type 0 where
    pub before : List Op
    pub old : Op
    pub new : Op
    pub behind : List Op
    pub from : ops ≡ before ++ (old ∷ behind)
    pub to : ops' ≡ before ++ (new ∷ behind)
    pub matches : Matches mtype p old
    pub flag : (u ≡ true) ↔ Denied p mtype
    pub client : u ≡ true → c' ≡ c
    pub passed : All (λ (o : Op). on_datagram pal mtype p c o ≡ ok pass) before

  take_message-Taken :
      (mtype : ℕ) (ops ops' : List Op) (u : Bool)
      → take_message pal mtype p c ops ≡ ok (some (ops', c', u))
      → Taken mtype ops ops' u
  unfolding take_message
  take_message-Taken mtype [] ops' u e = absurd (ground arith)
  take_message-Taken mtype (op ∷ ops) ops' u e =
      elim (take_message-cases pal c c' p mtype op ops ops' u e) [
        | inl (op', taken, shape) ↦ record {
          before = [];
          old = op;
          new = op';
          behind = ops;
          from = refl;
          to = shape;
          matches = on_datagram-claim pal c c' p mtype op op' u taken;
          flag = on_datagram-flag pal c c' p mtype op op' u taken;
          client = claimed-client mtype op op' u taken;
          passed = tt;
        }
        | inr (rest, by, again, shape) ↦
            let r = take_message-Taken mtype ops rest u again in
            record {
              before = op ∷ r.before;
              old = r.old;
              new = r.new;
              behind = r.behind;
              from = ap (λ x. op ∷ x) r.from;
              to = shape ∙ ap (λ x. op ∷ x) r.to;
              matches = r.matches;
              flag = r.flag;
              client = r.client;
              passed = (by, r.passed);
            }
      ]

-- `op[0]` is free, or its time is over.
abbrev pub CanActivate : {W : Type 0} → Pal W → Client W → Op → Type 0
CanActivate pal c op = (op.type ≡ exo_null) ⊎ (op.timeout < (pal.exopal_get_time c.world).0)

-- `op[0]` is made to activate if the answer is CC_UNAUTHORIZED and it can activate, and otherwise
-- every operation is as it was.
abbrev pub Renewed : {W : Type 0} → Pal W → Client W → Pdu → ℕ → List Op → List Op → Type 0
Renewed pal c p mtype [] ops' = ops' ≡ []
Renewed pal c p mtype (op ∷ ops) ops' =
    (Denied p mtype × CanActivate pal c op × (ops' ≡ queue_activate op ∷ ops))
    ⊎ (¬ (Denied p mtype × CanActivate pal c op) × (ops' ≡ op ∷ ops))

-- The operation that takes a datagram, the ones before it and behind it, and what the loop leaves.
pub record Scanned {W : Type 0} (pal : Pal W) (c : Client W) (p : Pdu) (mtype : ℕ)
    (ops ops' : List Op) : Type 0 where
  pub before : List Op
  pub old : Op
  pub new : Op
  pub behind : List Op
  pub from : ops ≡ before ++ (old ∷ behind)
  pub to : Renewed pal c p mtype (before ++ (new ∷ behind)) ops'
  pub matches : Matches mtype p old
  pub passed : All (λ (o : Op). on_datagram pal mtype p c o ≡ ok pass) before

module _ {W : Type 0} (pal : Pal W) (c c' : Client W) (p : Pdu) where
  renewed :
      (mtype : ℕ) (u : Bool) (ops ops' : List Op) (c₁ : Client W)
      → ((u ≡ true) ↔ Denied p mtype)
      → (u ≡ true → c₁ ≡ c)
      → reactivate pal u ops c₁ ≡ (ops', c')
      → Renewed pal c p mtype ops ops'
  unfolding reactivate
  renewed mtype false [] ops' c₁ h same e = ground arith
  renewed mtype true [] ops' c₁ h same e = ground arith
  renewed mtype false (op ∷ ops) ops' c₁ h same e =
      inr (λ (d, free). absurd (let lit = h.1 d in ground (arith, lit)), ground arith)
  renewed mtype true (op ∷ ops) ops' c₁ h same e =
      let denied = h.0 refl in let here = same refl in ground (arith, denied, here)

  -- If an operation takes a datagram, it is the first that the datagram does not pass by, and it
  -- waits for the datagram: a notification needs a subscribed operation with its token, an answer a
  -- pending one with its message id, and a reset one of these with both. The others are as they
  -- were, save that an answer CC_UNAUTHORIZED makes `op[0]` activate, if after that change it is
  -- free or its time is over.
  pub scan_ops-Scanned :
      (mtype : ℕ) (ops ops' : List Op)
      → scan_ops pal mtype p c ops ≡ ok (some (ops', c'))
      → Scanned pal c p mtype ops ops'
  scan_ops-Scanned mtype ops ops' e =
      let (left, c₁, u, taken, done) = scan_ops-cases pal c c' p mtype ops ops' e in
      let r = take_message-Taken pal c c₁ p mtype ops left u taken in
      record {
        before = r.before;
        old = r.old;
        new = r.new;
        behind = r.behind;
        from = r.from;
        to =
            subst (λ t. Renewed pal c p mtype t ops') r.to
              (renewed mtype u left ops' c₁ r.flag r.client done);
        matches = r.matches;
        passed = r.passed;
      }
