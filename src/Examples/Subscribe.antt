-- ===== src/Examples/Subscribe.antt =====
-- `main` of examples/subscribe.c. What it prints is a list of reports.
pub mod Check
use libexositecoap.Common.{
  ℕ, zero, suc, ◌+◌, ◌%◌, ◌/◌, ◌^◌, List, [], ◌∷◌, ◌++◌, Bool, true, false, ◌||◌, take, ltb, ◌==◌,
  if◌then◌else◌, Exec, ok, fault, stuck, ◌>>=◌,
}
use libexositecoap.Memory.{write}
use libexositecoap.Coap.Pdu.{Pdu}
use libexositecoap.Pal.{Pal}
use libexositecoap.Client.State.{Client, ExoError, ExoState, exo_idle}
use libexositecoap.Client.Op.{
  Op, queue_write, queue_subscribe, exo_op_init, exo_op_done, exo_is_op_finished, exo_is_op_success,
  exo_is_op_read, exo_is_op_subscribe, exo_is_op_write,
}
use libexositecoap.Client.Operate.{exo_init, exo_operate}
use mathlib.Core.Option.{Option, none, some}

abbrev vendor_name : List ℕ
vendor_name = b'p' ∷ b'a' ∷ b't' ∷ b'r' ∷ b'i' ∷ b'c' ∷ b'k' ∷ 0 ∷ []

abbrev model_name : List ℕ
model_name =
    b'g' ∷ b'e' ∷ b'n' ∷ b'e' ∷ b'r' ∷ b'i' ∷ b'c' ∷ b'_' ∷ b't' ∷ b'e' ∷ b's' ∷ b't' ∷ 0 ∷ []

abbrev serial_name : List ℕ
serial_name = b'0' ∷ b'0' ∷ b'1' ∷ 0 ∷ []

-- A line on an operation, with its `alias` and `value`.
pub data Report : Type 0 where
  got : Option (List ℕ) → Option (List ℕ) → Report
  set : Option (List ℕ) → Option (List ℕ) → Report
  unknown : Report
  failed : Option (List ℕ) → ℕ → Report

-- The digits of a number, the highest first; 20 are enough for 64 bits.
unfoldable pub digits : ℕ → ℕ → List ℕ
digits zero n = []
digits (suc fuel) n =
    let high = digits fuel (n / 10) in (if n / 10 == 0 then [] else high) ++ ((b'0' + n % 10) ∷ [])

-- `snprintf(buffer, 15, "%llu", n)`
unfoldable pub print_number : List ℕ → ℕ → Exec (List ℕ)
unfolding digits
print_number buffer n = write buffer 0 (take 14 (digits 20 n) ++ (0 ∷ []))

-- `ops[i]`, and a change of it.
unfoldable pub op_at : List Op → ℕ → Exec Op
op_at [] i = fault
op_at (op ∷ ops) zero = ok op
op_at (op ∷ ops) (suc i) = op_at ops i

unfoldable pub change_at : List Op → ℕ → (Op → Op) → Exec (List Op)
change_at [] i f = fault
change_at (op ∷ ops) zero f = ok (f op ∷ ops)
change_at (op ∷ ops) (suc i) f = do rest ← change_at ops i f; ok (op ∷ rest)

abbrev pub errorcount_alias : Option (List ℕ)
errorcount_alias =
    some (b'e' ∷ b'r' ∷ b'r' ∷ b'o' ∷ b'r' ∷ b'c' ∷ b'o' ∷ b'u' ∷ b'n' ∷ b't' ∷ 0 ∷ [])

abbrev command_alias : Option (List ℕ)
command_alias = some (b'c' ∷ b'o' ∷ b'm' ∷ b'm' ∷ b'a' ∷ b'n' ∷ b'd' ∷ 0 ∷ [])

abbrev uptime_alias : Option (List ℕ)
uptime_alias = some (b'u' ∷ b'p' ∷ b't' ∷ b'i' ∷ b'm' ∷ b'e' ∷ 0 ∷ [])

abbrev pub report_success : Op → Report
report_success op =
    if exo_is_op_read op || exo_is_op_subscribe op
    then got op.alias op.value
    else if exo_is_op_write op
    then set op.alias op.value
    else unknown

-- The body of the loop that checks the operations, at `ops[i]`; `error_str` is the array of the
-- number that is written.
unfoldable pub check_op : List ℕ → ℕ → List Op → ℕ → Exec (List Op × List Report × List ℕ)
unfolding print_number op_at change_at
check_op error_str errorcount ops i = do
  op ← op_at ops i
  if exo_is_op_finished op
      then (if exo_is_op_success op
          then (do ops' ← change_at ops i exo_op_done; ok (ops', report_success op ∷ [], error_str))
          else (do
            array ← print_number error_str errorcount
            ops₁ ← change_at ops 3 (λ o. queue_write o errorcount_alias (some array))
            ops₂ ← change_at ops₁ i exo_op_done
            ok (ops₂, failed op.alias errorcount ∷ [], array)))
      else ok (ops, [], error_str)

-- The loop, from `ops[i]` on; `n` operations are left.
unfoldable pub check_ops : ℕ → List ℕ → ℕ → List Op → ℕ → Exec (List Op × List Report × List ℕ)
unfolding check_op
check_ops zero error_str errorcount ops i = ok (ops, [], error_str)
check_ops (suc n) error_str errorcount ops i = do
  (ops₁, reports, array) ← check_op error_str errorcount ops i
  (ops₂, more, array') ← check_ops n array errorcount ops₁ (i + 1)
  ok (ops₂, reports ++ more, array')

-- The variables of `main`.
pub record Program (W : Type 0) : Type 0 where
  pub loopcount : ℕ
  pub errorcount : ℕ
  pub loop_str : List ℕ
  pub error_str : List ℕ
  pub ops : List Op
  pub client : Client W

abbrev is_idle_answer : ExoState → Bool
is_idle_answer exo_idle = true
is_idle_answer _ = false

-- Every hundredth round queues a write of the number of rounds.
unfoldable pub queue_uptime : {W : Type 0} → Program W → Exec (Program W)
unfolding print_number change_at
queue_uptime s =
    if s.loopcount % 100 == 0
    then (do
      array ← print_number s.loop_str s.loopcount
      ops ← change_at s.ops 2 (λ o. queue_write o uptime_alias (some array))
      ok (record s { loop_str = array; ops = ops }))
    else ok s

module _ {W : Type 0} (pal : Pal W) where
  -- `while(exo_operate(ops, op_count) != EXO_IDLE);`, of up to `rounds` calls, each of up to `fuel`
  -- datagrams; `pdu` is the local message of `exo_operate`.
  unfoldable pub operate_until_idle : ℕ → ℕ → Pdu → Client W → List Op → Exec (List Op × Client W)
  operate_until_idle zero fuel pdu c ops = stuck
  operate_until_idle (suc rounds) fuel pdu c ops = do
    (state, ops', c') ← exo_operate pal fuel pdu c ops
    elim (is_idle_answer state) [
      | true ↦ ok (ops', c')
      | false ↦ operate_until_idle rounds fuel pdu c' ops'
    ]

  -- A round of the main loop.
  unfoldable pub round : ℕ → ℕ → Pdu → Program W → Exec (List Report × Program W)
  unfolding queue_uptime operate_until_idle check_ops
  round rounds fuel pdu s = do
    s₁ ← queue_uptime s
    (ops, c) ← operate_until_idle rounds fuel pdu s₁.client s₁.ops
    (ops', reports, array) ← check_ops 3 s₁.error_str s₁.errorcount ops 1
    ok (
      reports,
      record s₁ {
        loopcount = (s₁.loopcount + 1) % 2 ^ 64;
        error_str = array;
        ops = ops';
        client = c;
      },
    )

  -- What comes before the loop, on uninitialised arrays; the answer of `exo_init` is not looked at.
  unfoldable pub setup : Client W → List ℕ → List ℕ → List ℕ → Exec (Program W)
  unfolding change_at
  setup c read_str loop_str error_str = do
    (_, c') ← exo_init pal c (some vendor_name) (some model_name) (some serial_name)
    let inited = exo_op_init ∷ exo_op_init ∷ exo_op_init ∷ exo_op_init ∷ []
    ops ← change_at inited 1 (λ o. queue_subscribe o command_alias (some read_str) 32)
    ok (record {
      loopcount = 0;
      errorcount = 0;
      loop_str = loop_str;
      error_str = error_str;
      ops = ops;
      client = c';
    })
