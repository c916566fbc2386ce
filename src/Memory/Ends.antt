-- ===== src/Memory/Ends.antt =====
-- The accesses to an array end, and keep its length.
use libexositecoap.Common.{
  ℕ, zero, suc, ◌≡◌, refl, List, [], ◌∷◌, length, arith, ok, ◌>>=◌, Ends, value_ends, fault_ends,
  Ends-bind, Stops, Ends-Stops, Stops-bind, Stops-if, ok-Stops, fault-Stops,
}
use libexositecoap.Memory.{peek, poke, read_front, read, write_front, write, memmove}

-- An array of `n` bytes.
abbrev pub IsLong : ℕ → List ℕ → Type 0
IsLong n xs = length xs ≡ n

pub peek-Ends : (xs : List ℕ) (i : ℕ) → Ends (λ _. Unit) (peek xs i)
unfolding peek
peek-Ends [] i = fault_ends
peek-Ends (x ∷ xs) zero = value_ends x tt
peek-Ends (x ∷ xs) (suc i) = peek-Ends xs i

pub poke-Ends : (xs : List ℕ) (i v : ℕ) → Ends (IsLong (length xs)) (poke xs i v)
unfolding poke
poke-Ends [] i v = fault_ends
poke-Ends (x ∷ xs) zero v = value_ends _ refl
poke-Ends (x ∷ xs) (suc i) v =
    Ends-bind (poke xs i v) _ (poke-Ends xs i v) (λ ys h. value_ends _ (omega (arith, h)))

read_front-Ends : (xs : List ℕ) (n : ℕ) → Ends (λ _. Unit) (read_front xs n)
unfolding read_front
read_front-Ends xs zero = value_ends _ tt
read_front-Ends [] (suc n) = fault_ends
read_front-Ends (x ∷ xs) (suc n) =
    Ends-bind (read_front xs n) _ (read_front-Ends xs n) (λ ys h. value_ends _ tt)

pub read-Ends : (xs : List ℕ) (i n : ℕ) → Ends (λ _. Unit) (read xs i n)
unfolding read
read-Ends xs zero n = read_front-Ends xs n
read-Ends [] (suc i) n = fault_ends
read-Ends (x ∷ xs) (suc i) n = read-Ends xs i n

write_front-Ends : (xs bs : List ℕ) → Ends (IsLong (length xs)) (write_front xs bs)
unfolding write_front
write_front-Ends xs [] = value_ends _ refl
write_front-Ends [] (b ∷ bs) = fault_ends
write_front-Ends (x ∷ xs) (b ∷ bs) =
    Ends-bind (write_front xs bs) _ (write_front-Ends xs bs)
      (λ ys h. value_ends _ (omega (arith, h)))

pub write-Ends : (xs : List ℕ) (i : ℕ) (bs : List ℕ) → Ends (IsLong (length xs)) (write xs i bs)
unfolding write
write-Ends xs zero bs = write_front-Ends xs bs
write-Ends [] (suc i) bs = fault_ends
write-Ends (x ∷ xs) (suc i) bs =
    Ends-bind (write xs i bs) _ (write-Ends xs i bs) (λ ys h. value_ends _ (omega (arith, h)))

pub memmove-Ends : (xs : List ℕ) (dst src n : ℕ) → Ends (IsLong (length xs)) (memmove xs dst src n)
unfolding memmove
memmove-Ends xs dst src n =
    Ends-bind (read xs src n) _ (read-Ends xs src n) (λ bs _. write-Ends xs dst bs)

pub poke-Stops : (xs : List ℕ) (i v : ℕ) → Stops (poke xs i v)
poke-Stops xs i v = Ends-Stops _ (poke-Ends xs i v)

pub write-Stops : (xs : List ℕ) (i : ℕ) (bs : List ℕ) → Stops (write xs i bs)
write-Stops xs i bs = Ends-Stops _ (write-Ends xs i bs)

pub memmove-Stops : (xs : List ℕ) (dst src n : ℕ) → Stops (memmove xs dst src n)
memmove-Stops xs dst src n = Ends-Stops _ (memmove-Ends xs dst src n)

pub ruleset memory_stops = (
  Stops-bind, Stops-if, ok-Stops, fault-Stops, peek-Ends, poke-Stops, read-Ends, write-Stops,
  memmove-Stops,
)
