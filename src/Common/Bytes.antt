-- ===== src/Common/Bytes.antt =====
-- The masks and shifts of the code as arithmetic. Each is a table, checked by evaluation.
use Prim.Native.Nat.{ℕ, zero, suc, ◌+◌, ◌*◌, ◌/◌, ◌%◌, ◌<◌, bit_and, bit_or}
use mathlib.Core.Path.{◌≡◌, refl}
use mathlib.Core.Bool.{Bool, true, ◌&&◌}
use native.Mathlib.Omega.{arith}
use libexositecoap.Common.Tests.{◌==◌, ==_iff}

abbrev pub IsByte : ℕ → Type 0
IsByte b = b < 256

holds_below : ℕ → (ℕ → Bool) → Bool
holds_below zero p = true
holds_below (suc n) p = p n && holds_below n p

holds_below_sound : (n : ℕ) (p : ℕ → Bool) (x : ℕ) → holds_below n p ≡ true → x < n → p x ≡ true
unfolding holds_below
holds_below_sound zero p x h lt = absurd (omega arith)
holds_below_sound (suc n) p x h lt = ground (arith, holds_below_sound n p x)

-- Two functions of a number below `n`, or of two below `m` and `n`, agree.
from_table :
    (n : ℕ) (f g : ℕ → ℕ) → holds_below n (λ i. f i == g i) ≡ true → (i : ℕ) → i < n → f i ≡ g i
from_table n f g t i h = (==_iff (f i) (g i)).0 (holds_below_sound n _ i t h)

from_table₂ :
    (m n : ℕ) (f g : ℕ → ℕ → ℕ)
    → holds_below m (λ i. holds_below n (λ j. f i j == g i j)) ≡ true
    → (i j : ℕ) → i < m
    → j < n
    → f i j ≡ g i j
from_table₂ m n f g t i j h k = from_table n (f i) (g i) (holds_below_sound m _ i t h) j k

pub low_nibble : (b : ℕ) → b < 256 → bit_and b 0x0f ≡ b % 16
unfolding holds_below
low_nibble = from_table 256 _ _ refl

pub low_five : (b : ℕ) → b < 256 → bit_and b 0x1f ≡ b % 32
unfolding holds_below
low_five = from_table 256 _ _ refl

pub high_nibble : (b : ℕ) → b < 256 → bit_and b 0xf0 ≡ b / 16 * 16
unfolding holds_below
high_nibble = from_table 256 _ _ refl

pub low_six : (b : ℕ) → b < 256 → bit_and b 0x3f ≡ b % 64
unfolding holds_below
low_six = from_table 256 _ _ refl

pub low_two : (b : ℕ) → b < 256 → bit_and b 0x03 ≡ b % 4
unfolding holds_below
low_two = from_table 256 _ _ refl

pub but_type : (b : ℕ) → b < 256 → bit_and b 0xcf ≡ b / 64 * 64 + b % 16
unfolding holds_below
but_type = from_table 256 _ _ refl

pub join_nibbles : (hi lo : ℕ) → hi < 16 → lo < 16 → bit_or (hi * 16) lo ≡ hi * 16 + lo
unfolding holds_below
join_nibbles = from_table₂ 16 16 _ _ refl

pub join_low_nibble : (lo hi : ℕ) → lo < 16 → hi < 16 → bit_or lo (hi * 16) ≡ lo + hi * 16
unfolding holds_below
join_low_nibble = from_table₂ 16 16 _ _ refl

pub join_version : (v b : ℕ) → v < 4 → b < 64 → bit_or (v * 64) b ≡ v * 64 + b
unfolding holds_below
join_version = from_table₂ 4 64 _ _ refl

pub join_type :
    (t b : ℕ)
    → t < 4
    → b < 256
    → bit_or (t * 16) (b / 64 * 64 + b % 16) ≡ b / 64 * 64 + t * 16 + b % 16
unfolding holds_below
join_type = from_table₂ 4 256 _ _ refl

pub join_bytes : (hi lo : ℕ) → hi < 256 → lo < 256 → bit_or (hi * 256) lo ≡ hi * 256 + lo
unfolding holds_below
join_bytes = from_table₂ 256 256 _ _ refl

pub low_byte : (hi lo : ℕ) → hi < 256 → lo < 256 → bit_and (hi * 256 + lo) 0xff ≡ lo
unfolding holds_below
low_byte = from_table₂ 256 256 _ (λ hi lo. lo) refl
