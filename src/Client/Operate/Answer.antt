-- ===== src/Client/Operate/Answer.antt =====
-- What `exo_operate` answers, and what the check of a hexadecimal string accepts.
use libexositecoap.Common.{
  ℕ, ◌≡◌, ◌≢◌, ◌≤◌, ◌↔◌, ◌⊎◌, inl, inr, subst, >>=-eq-ok, suc, zero, List, [], ◌∷◌, length, All,
  take, arith, Bool, false, ok, refl,
}
use libexositecoap.Coap.Pdu.{Pdu}
use libexositecoap.Pal.{Pal}
use libexositecoap.Client.State.{
  Client, DeviceState, uninitialized, initialized, good, bad_cik, ExoState, exo_idle, exo_waiting,
  exo_busy, exo_error,
}
use libexositecoap.Client.Op.{Op, RequestState, request_new, request_pending}
use libexositecoap.Client.Handlers.{is_pending}
use libexositecoap.Client.Operate.{
  is_new, any_state, answer, activate_first, operate_good, operate_in, exo_operate,
  exo_util_is_ascii_hex,
}

-- No operation is in the state.
pub NoneIn : RequestState → List Op → Type 0
NoneIn s ops = All (λ (o : Op). o.state ≢ s) ops

is_new_iff : (s : RequestState) → (is_new s ≡ false) ↔ (s ≢ request_new)
is_new_iff s = ground arith

is_pending_iff : (s : RequestState) → (is_pending s ≡ false) ↔ (s ≢ request_pending)
is_pending_iff s = ground arith

any_state-NoneIn :
    (test : RequestState → Bool) (s : RequestState)
    → ((x : RequestState) → (test x ≡ false) ↔ (x ≢ s))
    → (ops : List Op) → (any_state test ops ≡ false) ↔ NoneIn s ops
unfolding any_state NoneIn
any_state-NoneIn test s h [] = (λ e. tt, λ n. refl)
any_state-NoneIn test s h (op ∷ ops) =
    let (to, from) = any_state-NoneIn test s h ops in
    let (to₁, from₁) = h op.state in
    (λ e. (to₁ (ground arith), to (ground arith)), λ n. ground (arith, from n.1, from₁ n.0))

answer_lem :
    (ops : List Op)
    → ((answer ops ≡ exo_idle) ↔ (NoneIn request_new ops × NoneIn request_pending ops))
      × ((answer ops ≡ exo_waiting) ↔ (NoneIn request_new ops × ¬ (NoneIn request_pending ops)))
      × ((answer ops ≡ exo_busy) ↔ (¬ (NoneIn request_new ops)))
unfolding answer
answer_lem ops =
    let news = any_state-NoneIn is_new request_new is_new_iff ops in
    let pendings = any_state-NoneIn is_pending request_pending is_pending_iff ops in
    ground (arith, news, pendings)

-- What `exo_operate` answers on a device that is initialized, about the operations that it leaves.
pub record IsAnswer (s : ExoState) (ops : List Op) : Type 0 where
  pub idle : (s ≡ exo_idle) ↔ (NoneIn request_new ops × NoneIn request_pending ops)
  pub waiting : (s ≡ exo_waiting) ↔ (NoneIn request_new ops × ¬ (NoneIn request_pending ops))
  pub busy : (s ≡ exo_busy) ↔ (¬ (NoneIn request_new ops))

module _ {W : Type 0} (pal : Pal W) where
  answer-IsAnswer : (ops : List Op) → IsAnswer (answer ops) ops
  answer-IsAnswer ops = let (i, w, b) = answer_lem ops in record { idle = i; waiting = w; busy = b }

  operate_good-IsAnswer :
      (fuel : ℕ) (p : Pdu) (c c' : Client W) (ops ops' : List Op) (s : ExoState)
      → operate_good pal fuel p c ops ≡ ok (s, ops', c')
      → IsAnswer s ops'
  unfolding operate_good
  operate_good-IsAnswer fuel p c c' ops ops' s e =
      let shape : (answer ops' ≡ s) = ground arith in
      subst (λ t. IsAnswer t ops') shape (answer-IsAnswer ops')

  operate_in-IsAnswer :
      (d : DeviceState) (fuel : ℕ) (p : Pdu) (c c' : Client W) (ops ops' : List Op) (s : ExoState)
      → d ≢ uninitialized
      → operate_in pal d fuel p c ops ≡ ok (s, ops', c')
      → IsAnswer s ops'
  unfolding operate_in
  operate_in-IsAnswer uninitialized fuel p c c' ops ops' s started e = absurd (started refl)
  operate_in-IsAnswer good fuel p c c' ops ops' s started e =
      operate_good-IsAnswer fuel p c c' ops ops' s e
  operate_in-IsAnswer initialized fuel p c c' ops ops' s started e =
      let ((ops₁, c₁), first, rest) = >>=-eq-ok (activate_first pal c ops) _ e in
      operate_good-IsAnswer fuel p c₁ c' ops₁ ops' s rest
  operate_in-IsAnswer bad_cik fuel p c c' ops ops' s started e =
      let ((ops₁, c₁), first, rest) = >>=-eq-ok (activate_first pal c ops) _ e in
      operate_good-IsAnswer fuel p c₁ c' ops₁ ops' s rest

  -- A call of `exo_operate` that has a result answers EXO_ERROR and does nothing if the device is
  -- uninitialized. Otherwise it answers, about the operations as it leaves them: EXO_IDLE if and
  -- only if none is new and none is pending, EXO_WAITING if and only if none is new and some are
  -- pending, and EXO_BUSY if and only if some are new. An acknowledgement that is still owed does
  -- not count.
  pub exo_operate-IsAnswer :
      (fuel : ℕ) (p : Pdu) (c c' : Client W) (ops ops' : List Op) (s : ExoState)
      → exo_operate pal fuel p c ops ≡ ok (s, ops', c')
      → ((c.device_state ≡ uninitialized) × (s ≡ exo_error) × (ops' ≡ ops) × (c' ≡ c))
        ⊎ ((c.device_state ≢ uninitialized) × IsAnswer s ops')
  exo_operate-IsAnswer fuel p c c' ops ops' s e =
      by_state c.device_state refl (unfold exo_operate in e)
    where
      by_state :
          (d : DeviceState)
          → c.device_state ≡ d
          → operate_in pal d fuel p c ops ≡ ok (s, ops', c')
          → ((c.device_state ≡ uninitialized) × (s ≡ exo_error) × (ops' ≡ ops) × (c' ≡ c))
            ⊎ ((c.device_state ≢ uninitialized) × IsAnswer s ops')
      by_state uninitialized is run = inl (unfold operate_in in ground arith)
      by_state good is run =
          inr (λ off. cc, operate_in-IsAnswer good fuel p c c' ops ops' s (λ u. cc) run)
      by_state initialized is run =
          inr (λ off. cc, operate_in-IsAnswer initialized fuel p c c' ops ops' s (λ u. cc) run)
      by_state bad_cik is run =
          inr (λ off. cc, operate_in-IsAnswer bad_cik fuel p c c' ops ops' s (λ u. cc) run)

-- A character of a lower-case hexadecimal number.
abbrev pub IsHexDigit : ℕ → Type 0
IsHexDigit c = ((b'a' ≤ c) × (c ≤ b'f')) ⊎ ((b'0' ≤ c) × (c ≤ b'9'))

-- A string of at least `len` characters is accepted if and only if the first `len` are digits of a
-- lower-case hexadecimal number.
pub util_is_ascii_hex_lem :
    (str : List ℕ) (len : ℕ)
    → len ≤ length str
    → (exo_util_is_ascii_hex str len ≡ ok 0) ↔ All IsHexDigit (take len str)
unfolding exo_util_is_ascii_hex
util_is_ascii_hex_lem str zero h = (λ e. tt, λ d. refl)
util_is_ascii_hex_lem [] (suc len) h = absurd (omega arith)
util_is_ascii_hex_lem (c ∷ str) (suc len) h =
    ground (arith, util_is_ascii_hex_lem str len (omega arith))
