-- ===== src/Memory/Local.antt =====
-- An access behind a prefix is the access in what follows it.
use libexositecoap.Common.{
  ℕ, zero, suc, ◌≤◌, ◌<◌, ◌≢◌, take, drop, ◌+◌, ◌≡◌, ap, ◌∙◌, refl, List, [], ◌∷◌, ◌++◌, length,
  arith, Exec, ok, fault, stuck, ◌>>=◌, >>=-eq-ok,
}
use libexositecoap.Memory.{peek, poke, read_front, read, write_front, write}
use native.Mathlib.Nat.{suc-add, add-zero}
use Prim.Native.Nat.add

-- The result of a write to the bytes behind the prefix `pre`.
unfoldable pub prefixed : List ℕ → Exec (List ℕ) → Exec (List ℕ)
prefixed pre m = m >>= λ ys. ok (pre ++ ys)

pub prefixed_ok : (pre ys : List ℕ) → prefixed pre (ok ys) ≡ ok (pre ++ ys)
unfolding prefixed
prefixed_ok pre ys = refl

prefixed-cons :
    (x : ℕ) (pre : List ℕ) (m : Exec (List ℕ))
    → (prefixed pre m >>= λ ys. ok (x ∷ ys)) ≡ prefixed (x ∷ pre) m
unfolding prefixed
prefixed-cons x pre (ok ys) = refl
prefixed-cons x pre fault = refl
prefixed-cons x pre stuck = refl

prefixed-nil : (m : Exec (List ℕ)) → prefixed [] m ≡ m
unfolding prefixed
prefixed-nil (ok ys) = refl
prefixed-nil fault = refl
prefixed-nil stuck = refl

pub peek-append : (pre ys : List ℕ) (i : ℕ) → peek (pre ++ ys) (length pre + i) ≡ peek ys i
unfolding peek
peek-append [] ys i = rw (add.zero)
peek-append (x ∷ pre) ys i = rw (suc-add) (peek-append pre ys i)

pub poke-append :
    (pre ys : List ℕ) (i v : ℕ) → poke (pre ++ ys) (length pre + i) v ≡ prefixed pre (poke ys i v)
unfolding poke
poke-append [] ys i v = rw (add.zero, prefixed-nil)
poke-append (x ∷ pre) ys i v =
    rw (suc-add) (rw (poke-append pre ys i v) (prefixed-cons x pre (poke ys i v)))

pub read-append : (pre ys : List ℕ) (i n : ℕ) → read (pre ++ ys) (length pre + i) n ≡ read ys i n
unfolding read
read-append [] ys i n = rw (add.zero)
read-append (x ∷ pre) ys i n = rw (suc-add) (read-append pre ys i n)

pub write-append :
    (pre ys : List ℕ) (i : ℕ) (bs : List ℕ)
    → write (pre ++ ys) (length pre + i) bs ≡ prefixed pre (write ys i bs)
unfolding write
write-append [] ys i bs = rw (add.zero, prefixed-nil)
write-append (x ∷ pre) ys i bs =
    rw (suc-add) (rw (write-append pre ys i bs) (prefixed-cons x pre (write ys i bs)))

-- Exactly the bytes that stand there are read, and only as many are replaced as are written.
pub read_front-append : (bs ys : List ℕ) → read_front (bs ++ ys) (length bs) ≡ ok bs
unfolding read_front
read_front-append [] ys = refl
read_front-append (b ∷ bs) ys = rw (read_front-append bs ys)

pub write_front-append :
    (old bs ys : List ℕ) → length old ≡ length bs → write_front (old ++ ys) bs ≡ ok (bs ++ ys)
unfolding write_front
write_front-append [] [] ys h = refl
write_front-append [] (b ∷ bs) ys h = absurd (omega arith)
write_front-append (x ∷ old) [] ys h = absurd (omega arith)
write_front-append (x ∷ old) (b ∷ bs) ys h = rw (write_front-append old bs ys (omega arith))

-- The four accesses at an index that is the length of what stands before.
module _ (pre : List ℕ) (at : ℕ) (here : at ≡ length pre) where
  pub peek_at : (ys : List ℕ) (i : ℕ) → peek (pre ++ ys) (at + i) ≡ peek ys i
  peek_at ys i = rw here (peek-append pre ys i)

  pub peek_here : (x : ℕ) (ys : List ℕ) → peek (pre ++ (x ∷ ys)) at ≡ ok x
  unfolding peek
  peek_here x ys = rw (here, ← add-zero (length pre)) (peek-append pre (x ∷ ys) 0)

  pub read_here : (bs ys : List ℕ) → read (pre ++ (bs ++ ys)) at (length bs) ≡ ok bs
  unfolding read
  read_here bs ys =
      rw (here, ← add-zero (length pre))
        (rw (read-append pre (bs ++ ys) 0 (length bs)) (read_front-append bs ys))

  pub write_here :
      (old bs ys : List ℕ)
      → length old ≡ length bs
      → write (pre ++ (old ++ ys)) at bs ≡ ok (pre ++ (bs ++ ys))
  unfolding write
  write_here old bs ys e =
      rw (here, ← add-zero (length pre))
        (rw (write-append pre (old ++ ys) 0 bs)
          (rw (write_front-append old bs ys e) (prefixed_ok pre (bs ++ ys))))

  pub poke_here : (x : ℕ) (ys : List ℕ) (v : ℕ) → poke (pre ++ (x ∷ ys)) at v ≡ ok (pre ++ (v ∷ ys))
  unfolding poke
  poke_here x ys v =
      rw (here, ← add-zero (length pre))
        (rw (poke-append pre (x ∷ ys) 0 v) (prefixed_ok pre (v ∷ ys)))

  pub poke_next :
      (x y : ℕ) (ys : List ℕ) (v : ℕ)
      → poke (pre ++ (x ∷ y ∷ ys)) (at + 1) v ≡ ok (pre ++ (x ∷ v ∷ ys))
  unfolding poke
  poke_next x y ys v =
      rw here (rw (poke-append pre (x ∷ y ∷ ys) 1 v) (prefixed_ok pre (x ∷ v ∷ ys)))

  pub peek_next : (x y : ℕ) (ys : List ℕ) → peek (pre ++ (x ∷ y ∷ ys)) (at + 1) ≡ ok y
  unfolding peek
  peek_next x y ys = rw here (peek-append pre (x ∷ y ∷ ys) 1)

-- A byte is read inside the array only, and reading ends.
pub peek_inside : (xs : List ℕ) (i x : ℕ) → peek xs i ≡ ok x → i < length xs
unfolding peek
peek_inside [] i x e = cc
peek_inside (y ∷ xs) zero x e = omega arith
peek_inside (y ∷ xs) (suc i) x e = omega (arith, peek_inside xs i x e)

pub peek-ne-stuck : (xs : List ℕ) (i : ℕ) → peek xs i ≢ stuck
unfolding peek
peek-ne-stuck [] i e = cc
peek-ne-stuck (y ∷ xs) zero e = cc
peek-ne-stuck (y ∷ xs) (suc i) e = peek-ne-stuck xs i e

read_front_whole : (xs : List ℕ) → read_front xs (length xs) ≡ ok xs
unfolding read_front
read_front_whole [] = refl
read_front_whole (x ∷ xs) = rw (read_front_whole xs)

pub read_whole : (xs : List ℕ) → read xs 0 (length xs) ≡ ok xs
unfolding read
read_whole xs = read_front_whole xs

-- A write puts its bytes in the place of as many.
pub write_front_lem :
    (xs bs : List ℕ) → length bs ≤ length xs → write_front xs bs ≡ ok (bs ++ drop (length bs) xs)
unfolding write_front
write_front_lem xs [] h = refl
write_front_lem [] (b ∷ bs) h = absurd (omega arith)
write_front_lem (x ∷ xs) (b ∷ bs) h = rw (write_front_lem xs bs (omega arith))

pub write_lem :
    (xs : List ℕ) (i : ℕ) (bs : List ℕ)
    → i + length bs ≤ length xs
    → write xs i bs ≡ ok (take i xs ++ (bs ++ drop (i + length bs) xs))
unfolding write
write_lem xs zero bs h = rw (add.zero (length bs)) (write_front_lem xs bs (omega arith))
write_lem [] (suc i) bs h = absurd (omega arith)
write_lem (x ∷ xs) (suc i) bs h = rw (suc-add) (rw (write_lem xs i bs (omega arith)))

-- A read at the front does not see what follows.
pub read_prefix : (xs ys : List ℕ) → read (xs ++ ys) 0 (length xs) ≡ ok xs
unfolding read
read_prefix xs ys = read_front-append xs ys

-- A byte inside the array can be written.
pub poke_within : (xs : List ℕ) (i v : ℕ) → i < length xs → (ys : List ℕ) × (poke xs i v ≡ ok ys)
unfolding poke
poke_within [] i v h = absurd (omega arith)
poke_within (x ∷ xs) zero v h = (v ∷ xs, refl)
poke_within (x ∷ xs) (suc i) v h = let (ys, e) = poke_within xs i v (omega arith) in (x ∷ ys, rw e)

-- A read of one byte or more is the byte there and a read behind it.
pub read-suc :
    (xs : List ℕ) (i n : ℕ) (bs : List ℕ)
    → read xs i (suc n) ≡ ok bs
    → (b : ℕ) × (rest : List ℕ) × (peek xs i ≡ ok b)
      × (read xs (i + 1) n ≡ ok rest)
      × (bs ≡ b ∷ rest)
unfolding read read_front peek
read-suc [] zero n bs e = cc
read-suc [] (suc i) n bs e = cc
read-suc (x ∷ xs) zero n bs e =
    let (rest, got, shape) = >>=-eq-ok (read_front xs n) _ e in (x, rest, refl, got, ground arith)
read-suc (x ∷ xs) (suc i) n bs e = rw (suc-add) (read-suc xs i n bs e)

pub read-cons :
    (xs : List ℕ) (i b : ℕ) (bs : List ℕ)
    → read xs i (suc (length bs)) ≡ ok (b ∷ bs)
    → (peek xs i ≡ ok b) × (read xs (i + 1) (length bs) ≡ ok bs)
read-cons xs i b bs e =
    let (b', rest, first, more, shape) = read-suc xs i (length bs) (b ∷ bs) e in
    let head : b' ≡ b = cc in
    let tail : rest ≡ bs = cc in (first ∙ ap (λ t. ok t) head, more ∙ ap (λ t. ok t) tail)

-- A write keeps the length of the array.
write_front-length : (xs bs ys : List ℕ) → write_front xs bs ≡ ok ys → length ys ≡ length xs
unfolding write_front
write_front-length xs [] ys e = ground arith
write_front-length [] (b ∷ bs) ys e = cc
write_front-length (x ∷ xs) (b ∷ bs) ys e =
    let (zs, run, shape) = >>=-eq-ok (write_front xs bs) _ e in
    ground (arith, write_front-length xs bs zs run)

pub write-length :
    (xs : List ℕ) (i : ℕ) (bs ys : List ℕ) → write xs i bs ≡ ok ys → length ys ≡ length xs
unfolding write
write-length xs zero bs ys e = write_front-length xs bs ys e
write-length [] (suc i) bs ys e = cc
write-length (x ∷ xs) (suc i) bs ys e =
    let (zs, run, shape) = >>=-eq-ok (write xs i bs) _ e in
    ground (arith, write-length xs i bs zs run)

-- A byte that was set is read back.
pub peek-poke : (xs : List ℕ) (i v : ℕ) (ys : List ℕ) → poke xs i v ≡ ok ys → peek ys i ≡ ok v
unfolding poke peek
peek-poke [] i v ys e = cc
peek-poke (x ∷ xs) zero v ys e = ground arith
peek-poke (x ∷ xs) (suc i) v ys e =
    let (zs, run, shape) = >>=-eq-ok (poke xs i v) _ e in ground (arith, peek-poke xs i v zs run)

pub poke-length :
    (xs : List ℕ) (i v : ℕ) (ys : List ℕ) → poke xs i v ≡ ok ys → length ys ≡ length xs
unfolding poke
poke-length [] i v ys e = cc
poke-length (x ∷ xs) zero v ys e = ground arith
poke-length (x ∷ xs) (suc i) v ys e =
    let (zs, run, shape) = >>=-eq-ok (poke xs i v) _ e in ground (arith, poke-length xs i v zs run)
