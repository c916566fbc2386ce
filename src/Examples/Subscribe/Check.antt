-- ===== src/Examples/Subscribe/Check.antt =====
-- The loop of examples/subscribe.c that checks the operations.
use libexositecoap.Common.{
  ℕ, zero, suc, ◌≡◌, refl, ap, ◌∙◌, List, [], ◌∷◌, ◌++◌, Bool, true, false, not, ◌&&◌, ◌||◌,
  if◌then◌else◌, length, length-append, length-drop, append-nil, take, drop, ◌≤◌, arith, ok,
}
use libexositecoap.Client.Op.{
  Op, queue_write, exo_op_init, exo_op_done, exo_is_op_finished, exo_is_op_success,
  exo_is_op_subscribe,
}
use libexositecoap.Examples.Subscribe.{
  Report, failed, report_success, check_op, check_ops, errorcount_alias, print_number, digits,
  op_at, change_at,
}
use libexositecoap.Memory.{write}
use libexositecoap.Memory.Local.{write_front_lem}
use mathlib.Core.Option.{some}

-- An operation that ended in an error.
abbrev pub has_failed : Op → Bool
has_failed op = exo_is_op_finished op && not (exo_is_op_success op)

-- What the loop makes of an operation.
abbrev pub settled : Op → Op
settled op = if exo_is_op_finished op then exo_op_done op else op

abbrev pub reports_of : ℕ → Op → List Report
reports_of errorcount op =
    if exo_is_op_finished op
    then (if exo_is_op_success op then report_success op else failed op.alias errorcount) ∷ []
    else []

-- The text of a number, and an array in which it is printed.
abbrev number_text : ℕ → List ℕ
number_text n = take 14 (digits 20 n) ++ (0 ∷ [])

abbrev pub printed : List ℕ → ℕ → List ℕ
printed array n = number_text n ++ drop (length (number_text n)) array

length-take : (n : ℕ) (xs : List ℕ) → length (take n xs) ≤ n
length-take zero xs = omega arith
length-take (suc n) [] = omega arith
length-take (suc n) (x ∷ xs) = omega (arith, length-take n xs)

drop-append : (xs ys : List ℕ) → drop (length xs) (xs ++ ys) ≡ ys
drop-append [] ys = refl
drop-append (x ∷ xs) ys = drop-append xs ys

length-number_text : (n : ℕ) → length (number_text n) ≤ 15
length-number_text n =
    omega (arith, length-append (take 14 (digits 20 n)) (0 ∷ []), length-take 14 (digits 20 n))

length-printed :
    (array : List ℕ) (n : ℕ) → 15 ≤ length array → length (printed array n) ≡ length array
length-printed array n room = omega (
  arith,
  length-append (number_text n) (drop (length (number_text n)) array),
  length-drop (length (number_text n)) array,
  length-number_text n,
)

print_number_lem :
    (array : List ℕ) (n : ℕ) → 15 ≤ length array → print_number array n ≡ ok (printed array n)
unfolding print_number write
print_number_lem array n room =
    write_front_lem array (number_text n) (omega (arith, length-number_text n))

-- Printing the same number again changes nothing.
printed-printed : (array : List ℕ) (n : ℕ) → printed (printed array n) n ≡ printed array n
printed-printed array n =
    ap (λ (t : List ℕ). number_text n ++ t)
      (drop-append (number_text n) (drop (length (number_text n)) array))

module _ (array : List ℕ) (n : ℕ) (room : 15 ≤ length array) where
  again : print_number (printed array n) n ≡ ok (printed array n)
  again =
      print_number_lem (printed array n) n (omega (arith, length-printed array n room))
      ∙ ap (λ (t : List ℕ). ok t) (printed-printed array n)

-- The third operation is the one that a failure of the others makes a write of.
abbrev error_report : List ℕ → ℕ → Op → Op
error_report array n op = queue_write op errorcount_alias (some (printed array n))

-- Its state, its reports and the array behind the loop, if `fa` and `fb` say whether the others
-- have failed.
abbrev pub settled_last : List ℕ → ℕ → Bool → Bool → Op → Op
settled_last array n fa fb op =
    if fa || fb then error_report array n op else if has_failed op then exo_op_init else settled op

abbrev pub last_reports : ℕ → Bool → Bool → Op → List Report
last_reports n fa fb op = if fa || fb then [] else reports_of n op

module _ (n : ℕ) (o a b op : Op) where
  check_first :
      (array : List ℕ)
      → 15 ≤ length array
      → check_op array n (o ∷ a ∷ b ∷ op ∷ []) 1
        ≡ ok (
          o ∷ settled a ∷ b ∷ (if has_failed a then error_report array n op else op) ∷ [],
          reports_of n a,
          if has_failed a then printed array n else array,
        )
  unfolding check_op op_at change_at
  check_first array room = ground (arith, print_number_lem array n room)

  check_second :
      (array : List ℕ)
      → 15 ≤ length array
      → check_op array n (o ∷ a ∷ b ∷ op ∷ []) 2
        ≡ ok (
          o ∷ a ∷ settled b ∷ (if has_failed b then error_report array n op else op) ∷ [],
          reports_of n b,
          if has_failed b then printed array n else array,
        )
  unfolding check_op op_at change_at
  check_second array room = ground (arith, print_number_lem array n room)

  check_third :
      (array : List ℕ)
      → 15 ≤ length array
      → check_op array n (o ∷ a ∷ b ∷ op ∷ []) 3
        ≡ ok (
          o ∷ a ∷ b ∷ (if has_failed op then exo_op_init else settled op) ∷ [],
          reports_of n op,
          if has_failed op then printed array n else array,
        )
  unfolding check_op op_at change_at
  check_third array room =
      let done : exo_op_done (error_report array n op) ≡ exo_op_init =
        unfold exo_op_done exo_is_op_subscribe queue_write in refl in
      ground (arith, print_number_lem array n room, done)

-- The loop, one operation after the other.
check_each :
    (n : ℕ) (o a b op x y z : Op) (op₁ op₂ : Op) (arr₀ arr₁ arr₂ arr₃ : List ℕ)
    (ra rb rc : List Report)
    → check_op arr₀ n (o ∷ a ∷ b ∷ op ∷ []) 1 ≡ ok (o ∷ x ∷ b ∷ op₁ ∷ [], ra, arr₁)
    → check_op arr₁ n (o ∷ x ∷ b ∷ op₁ ∷ []) 2 ≡ ok (o ∷ x ∷ y ∷ op₂ ∷ [], rb, arr₂)
    → check_op arr₂ n (o ∷ x ∷ y ∷ op₂ ∷ []) 3 ≡ ok (o ∷ x ∷ y ∷ z ∷ [], rc, arr₃)
    → check_ops 3 arr₀ n (o ∷ a ∷ b ∷ op ∷ []) 1 ≡ ok (o ∷ x ∷ y ∷ z ∷ [], ra ++ (rb ++ rc), arr₃)
unfolding check_ops
check_each n o a b op x y z op₁ op₂ arr₀ arr₁ arr₂ arr₃ ra rb rc e₁ e₂ e₃ =
    ground (arith, e₁, e₂, e₃, append-nil rc)

-- What the report of a failure is for the rest of the loop.
module _ (array : List ℕ) (n : ℕ) (op : Op) where
  error_report-busy : exo_is_op_finished (error_report array n op) ≡ false
  unfolding exo_is_op_finished queue_write
  error_report-busy = refl

  error_report-again :
      error_report (printed array n) n (error_report array n op) ≡ error_report array n op
  unfolding queue_write
  error_report-again =
      ap (λ (t : List ℕ). queue_write op errorcount_alias (some t)) (printed-printed array n)

-- The round at the last operation, `op₂` being what the rounds before it have made of it.
abbrev last_round : List ℕ → ℕ → Op → Op × List Report × List ℕ
last_round array n op = (
  if has_failed op then exo_op_init else settled op,
  reports_of n op,
  if has_failed op then printed array n else array,
)

last-busy :
    (array : List ℕ) (n : ℕ) (op : Op)
    → exo_is_op_finished op ≡ false
    → last_round array n op ≡ (op, [], array)
last-busy array n op e = ground (arith, e)

end_of_check :
    (array : List ℕ) (n : ℕ) (op : Op) (fa fb : Bool)
    → (let arr₁ = if fa then printed array n else array in
        let op₁ = if fa then error_report array n op else op in
        last_round
          (if fb then printed arr₁ n else arr₁)
          n
          (if fb then error_report arr₁ n op₁ else op₁))
      ≡ (
        settled_last array n fa fb op,
        last_reports n fa fb op,
        if fa || (fb || has_failed op) then printed array n else array,
      )
end_of_check array n op true true =
    ap (λ (t : Op). last_round (printed (printed array n) n) n t) (error_report-again array n op)
    ∙ last-busy _ n (error_report array n op) (error_report-busy array n op)
    ∙ ap (λ (t : List ℕ). (error_report array n op, [], t)) (printed-printed array n)
end_of_check array n op true false =
    last-busy _ n (error_report array n op) (error_report-busy array n op)
end_of_check array n op false true =
    last-busy _ n (error_report array n op) (error_report-busy array n op)
end_of_check array n op false false = refl

-- With an array of 15 bytes or more, the loop that checks the three operations behind the first one
-- leaves one that is not finished, makes a finished subscription subscribed again and any other
-- finished operation free, and prints a report of each finished one. If one of the first two has
-- failed the last is a write of the number of errors instead, whatever it was; if only the last
-- has failed it is made free and nothing is written.
pub check_ops-settled :
    (array : List ℕ) (n : ℕ) (o a b op : Op)
    → 15 ≤ length array
    → check_ops 3 array n (o ∷ a ∷ b ∷ op ∷ []) 1
      ≡ ok (
        o ∷ settled a ∷ settled b ∷ settled_last array n (has_failed a) (has_failed b) op ∷ [],
        reports_of n a ++ (reports_of n b ++ last_reports n (has_failed a) (has_failed b) op),
        if has_failed a || (has_failed b || has_failed op) then printed array n else array,
      )
check_ops-settled array n o a b op room =
    let arr₁ : List ℕ = if has_failed a then printed array n else array in
    let op₁ : Op = if has_failed a then error_report array n op else op in
    let arr₂ : List ℕ = if has_failed b then printed arr₁ n else arr₁ in
    let op₂ : Op = if has_failed b then error_report arr₁ n op₁ else op₁ in
    let room₁ : 15 ≤ length arr₁ = ground (arith, length-printed array n room) in
    let room₂ : 15 ≤ length arr₂ = ground (arith, length-printed arr₁ n room₁) in
    check_each n o a b op _ _ _ op₁ op₂ array arr₁ arr₂ _ _ _ _ (check_first n o a b op array room)
      (check_second n o (settled a) b op₁ arr₁ room₁)
      (check_third n o (settled a) (settled b) op₂ arr₂ room₂)
    ∙ ap
        (λ t.
          ok (o ∷ settled a ∷ settled b ∷ t.0 ∷ [], reports_of n a ++ (reports_of n b ++ t.1), t.2))
        (end_of_check array n op (has_failed a) (has_failed b))
