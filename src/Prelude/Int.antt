-- ===== src/Prelude/Int.antt =====
-- Signed integers over the native numbers, and 64-bit wrap-around for Go's int.
use Prim.Native.Nat.{ℕ, suc, ◌+◌, ◌-◌, ◌*◌, ◌%◌, ◌≤◌, ◌<◌}
use mathlib.Core.Path.{◌≡◌}
use mathlib.Core.Bool.{Bool}
use native.Mathlib.Omega.{arith}
use raider_mate_service.Prelude.Tests.{ltb, leb, ◌==◌, if◌then◌else◌}

-- `negsuc n` is -(n + 1).
pub data ℤ : Type 0 where
  pos : ℕ → ℤ
  negsuc : ℕ → ℤ

abbrev pub pos_part : ℤ → ℕ
pos_part (pos n) = n
pos_part (negsuc n) = 0

abbrev pub neg_part : ℤ → ℕ
neg_part (pos n) = 0
neg_part (negsuc n) = suc n

-- a - b, as an integer.
abbrev pub sub_ℕ : ℕ → ℕ → ℤ
sub_ℕ a b = if leb b a then pos (a - b) else negsuc (b - a - 1)

infixl 65 ◌+ℤ◌ ◌-ℤ◌
infix 50 ◌≤ℤ◌
unfoldable pub ◌+ℤ◌ : ℤ → ℤ → ℤ
a +ℤ b = sub_ℕ (pos_part a + pos_part b) (neg_part a + neg_part b)

unfoldable pub ◌-ℤ◌ : ℤ → ℤ → ℤ
a -ℤ b = sub_ℕ (pos_part a + neg_part b) (neg_part a + pos_part b)

abbrev pub ◌≤ℤ◌ : ℤ → ℤ → Type 0
a ≤ℤ b = pos_part a + neg_part b ≤ pos_part b + neg_part a

abbrev pub ltb_ℤ : ℤ → ℤ → Bool
ltb_ℤ a b = ltb (pos_part a + neg_part b) (pos_part b + neg_part a)

abbrev pub leb_ℤ : ℤ → ℤ → Bool
leb_ℤ a b = leb (pos_part a + neg_part b) (pos_part b + neg_part a)

abbrev pub eqb_ℤ : ℤ → ℤ → Bool
eqb_ℤ a b = (pos_part a + neg_part b) == (pos_part b + neg_part a)

abbrev pub IsNonneg : ℤ → Type 0
IsNonneg a = neg_part a ≡ 0

-- The two's-complement value of an integer kept in `bits` bits, `half` being 2 ^ (bits - 1).
unfoldable pub wrap : ℕ → ℤ → ℤ
wrap half (pos n) =
    let m = n % (2 * half) in if ltb m half then pos m else negsuc (2 * half - 1 - m)
wrap half (negsuc n) =
    let m = n % (2 * half) in if ltb m half then negsuc m else pos (2 * half - 1 - m)

abbrev pub half64 : ℕ
half64 = 9223372036854775808

abbrev pub half16 : ℕ
half16 = 32768

-- Go's int and int16.
abbrev pub to_int : ℤ → ℤ
to_int = wrap half64

abbrev pub to_int16 : ℤ → ℤ
to_int16 = wrap half16

-- A value of Go's int.
abbrev pub IsInt : ℤ → Type 0
IsInt a = (pos_part a < half64) × (neg_part a ≤ half64)

-- A value in range is kept.
pub to_int_self : (a : ℤ) → IsInt a → to_int a ≡ a
unfolding wrap
to_int_self (pos n) h = ground arith
to_int_self (negsuc n) h = ground arith

pub to_int16_self : (n : ℕ) → n < half16 → to_int16 (pos n) ≡ pos n
unfolding wrap
to_int16_self n h = ground arith

-- A sum that passes the largest int by less than 2 ^ 64 comes out negative.
pub to_int_overflow :
    (n : ℕ) → half64 ≤ n → n < 2 * half64 → to_int (pos n) ≡ negsuc (2 * half64 - 1 - n)
unfolding wrap
to_int_overflow n h k = ground arith

pub +ℤ_parts :
    (a b : ℤ)
    → pos_part (a +ℤ b) + neg_part a + neg_part b ≡ neg_part (a +ℤ b) + pos_part a + pos_part b
unfolding ◌+ℤ◌
+ℤ_parts a b = ground arith

pub -ℤ_parts :
    (a b : ℤ)
    → pos_part (a -ℤ b) + neg_part a + pos_part b ≡ neg_part (a -ℤ b) + pos_part a + neg_part b
unfolding ◌-ℤ◌
-ℤ_parts a b = ground arith

pub eq_of_parts : (a b : ℤ) → pos_part a + neg_part b ≡ pos_part b + neg_part a → a ≡ b
eq_of_parts a b h = ground arith

pub ruleset int_laws = (arith, +ℤ_parts, -ℤ_parts, eq_of_parts)
