-- ===== src/Common/Run.antt =====
-- What a run of C code yields. `fault` is an access outside an array; `stuck` is no result of the
-- program: a loop of the model ran out of fuel.
use mathlib.Core.Path.{◌≡◌, refl}
use mathlib.Core.Logic.{◌≢◌}
use mathlib.Core.Option.{Option, none, some}
use mathlib.Core.Bool.{Bool, true, false}
use libexositecoap.Common.Tests.{if◌then◌else◌}

pub data Exec {ℓ} (A : Type ℓ) : Type ℓ where
  ok : A → Exec A
  fault : Exec A
  stuck : Exec A

-- What follows is done with the value of a run that has one.
infixl 5 ◌>>=◌
abbrev pub ◌>>=◌ {ℓ ℓ'} :
    {Result : Type ℓ} {Next : Type ℓ'} → Exec Result → (Result → Exec Next) → Exec Next
run >>= next = elim run [ ok value ↦ next value | fault ↦ fault | stuck ↦ stuck ]

-- A run of two steps that has a value, taken apart.
pub >>=-eq-ok {ℓ ℓ'} :
    {Result : Type ℓ} {Next : Type ℓ'} (run : Exec Result) (next : Result → Exec Next) {end : Next}
    → run >>= next ≡ ok end
    → (value : Result) × (run ≡ ok value) × (next value ≡ ok end)
>>=-eq-ok fault next done = cc
>>=-eq-ok stuck next done = cc
>>=-eq-ok (ok value) next done = (value, refl, done)

-- The run comes to an end, and if it has a value, that is a `P`.
pub data Ends {ℓ} {A : Type ℓ} (P : A → Type 0) : Exec A → Type ℓ where
  value_ends : (value : A) → P value → Ends P (ok value)
  fault_ends : Ends P fault

pub Ends-ne-stuck {ℓ} : {A : Type ℓ} {P : A → Type 0} (run : Exec A) → Ends P run → run ≢ stuck
Ends-ne-stuck (ok _) (value_ends value h) e = cc
Ends-ne-stuck fault fault_ends e = cc
Ends-ne-stuck stuck ends e = elim ends [ ]

-- The rules for a step and what follows it, and for a test.
pub Ends-bind {ℓ ℓ'} :
    {A : Type ℓ} {B : Type ℓ'} {P : A → Type 0} {Q : B → Type 0} (run : Exec A) (next : A → Exec B)
    → Ends P run
    → ((value : A) → P value → Ends Q (next value))
    → Ends Q (run >>= next)
Ends-bind (ok _) next (value_ends value h) rest = rest value h
Ends-bind fault next fault_ends rest = fault_ends
Ends-bind stuck next ends rest = elim ends [ ]

pub Ends-of {ℓ} :
    {A : Type ℓ} {P : A → Type 0} (run : Exec A)
    → run ≢ stuck
    → ((value : A) → run ≡ ok value → P value)
    → Ends P run
Ends-of (ok value) h rest = value_ends value (rest value refl)
Ends-of fault h rest = fault_ends
Ends-of stuck h rest = absurd (h refl)

pub Ends-weaken {ℓ} :
    {A : Type ℓ} {P Q : A → Type 0} (run : Exec A)
    → Ends P run
    → ((value : A) → P value → Q value)
    → Ends Q run
Ends-weaken (ok _) (value_ends value h) rest = value_ends value (rest value h)
Ends-weaken fault fault_ends rest = fault_ends
Ends-weaken stuck ends rest = elim ends [ ]

pub Ends-if {ℓ} :
    {A : Type ℓ} {P : A → Type 0} (test : Bool) (run run' : Exec A)
    → (test ≡ true → Ends P run)
    → (test ≡ false → Ends P run')
    → Ends P (if test then run else run')
Ends-if true run run' h k = h refl
Ends-if false run run' h k = k refl

-- The same test, written as a match.
pub Ends-test {ℓ} :
    {A : Type ℓ} {P : A → Type 0} (test : Bool) (run run' : Exec A)
    → (test ≡ true → Ends P run)
    → (test ≡ false → Ends P run')
    → Ends P (elim test [ true ↦ run | false ↦ run' ])
Ends-test true run run' h k = h refl
Ends-test false run run' h k = k refl

pub Ends-option {ℓ ℓ'} :
    {A : Type ℓ} {B : Type ℓ'} {Q : B → Type 0} (P : Option A → Type 0) (m : Option A)
    (run : Exec B) (next : A → Exec B)
    → P m
    → (P none → Ends Q run)
    → ((a : A) → P (some a) → Ends Q (next a))
    → Ends Q (elim m [ none ↦ run | some a ↦ next a ])
Ends-option P none run next p h k = h p
Ends-option P (some a) run next p h k = k a p

-- The run comes to an end.
abbrev pub Stops {ℓ} : {A : Type ℓ} → Exec A → Type ℓ
Stops run = Ends (λ _. Unit) run

pub Ends-Stops {ℓ} : {A : Type ℓ} {P : A → Type 0} (run : Exec A) → Ends P run → Stops run
Ends-Stops run ends = Ends-weaken run ends (λ _ _. tt)

pub Stops-bind {ℓ ℓ'} :
    {A : Type ℓ} {B : Type ℓ'} (run : Exec A) (next : A → Exec B)
    → Stops run
    → ((value : A) → Stops (next value))
    → Stops (run >>= next)
Stops-bind run next stops rest = Ends-bind run next stops (λ value _. rest value)

pub Stops-if {ℓ} :
    {A : Type ℓ} (test : Bool) (run run' : Exec A)
    → Stops run
    → Stops run'
    → Stops (if test then run else run')
Stops-if test run run' h k = Ends-if test run run' (λ _. h) (λ _. k)

pub ok-Stops {ℓ} : {A : Type ℓ} (value : A) → Stops (ok value)
ok-Stops value = value_ends value tt

pub fault-Stops {ℓ} : {A : Type ℓ} → Stops {A = A} fault
fault-Stops = fault_ends
