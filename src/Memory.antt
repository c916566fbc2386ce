-- ===== src/Memory.antt =====
-- A C array of bytes as a list. An access at an index past its end is a `fault`; `memcpy` and
-- `memmove` (string.h) touch `n` bytes from an index on. A pointer into the array is its index.
pub mod Local
pub mod Ends
use libexositecoap.Common.{ℕ, zero, suc, List, [], ◌∷◌, ◌++◌, Exec, ok, fault, ◌>>=◌}

unfoldable pub peek : List ℕ → ℕ → Exec ℕ
peek [] i = fault
peek (x ∷ xs) zero = ok x
peek (x ∷ xs) (suc i) = peek xs i

unfoldable pub poke : List ℕ → ℕ → ℕ → Exec (List ℕ)
poke [] i v = fault
poke (x ∷ xs) zero v = ok (v ∷ xs)
poke (x ∷ xs) (suc i) v = do ys ← poke xs i v; ok (x ∷ ys)

-- The first `n` bytes.
unfoldable pub read_front : List ℕ → ℕ → Exec (List ℕ)
read_front xs zero = ok []
read_front [] (suc n) = fault
read_front (x ∷ xs) (suc n) = do ys ← read_front xs n; ok (x ∷ ys)

-- `n` bytes from `i` on, the source of a `memcpy`. A pointer may stand one past the end.
unfoldable pub read : List ℕ → ℕ → ℕ → Exec (List ℕ)
unfolding read_front
read xs zero n = read_front xs n
read [] (suc i) n = fault
read (x ∷ xs) (suc i) n = read xs i n

unfoldable pub write_front : List ℕ → List ℕ → Exec (List ℕ)
write_front xs [] = ok xs
write_front [] (b ∷ bs) = fault
write_front (x ∷ xs) (b ∷ bs) = do ys ← write_front xs bs; ok (b ∷ ys)

-- `memcpy` of the bytes `bs` to the index `i`.
unfoldable pub write : List ℕ → ℕ → List ℕ → Exec (List ℕ)
unfolding write_front
write xs zero bs = write_front xs bs
write [] (suc i) bs = fault
write (x ∷ xs) (suc i) bs = do ys ← write xs i bs; ok (x ∷ ys)

unfoldable pub memmove : List ℕ → ℕ → ℕ → ℕ → Exec (List ℕ)
unfolding read write
memmove xs dst src n = do bs ← read xs src n; write xs dst bs
