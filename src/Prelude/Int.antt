-- ===== src/Prelude/Int.antt =====
-- Signed integers over the native numbers: what the times of shared/util.cc need.
use Prim.Native.Nat.{ℕ, suc, ◌+◌, ◌-◌, ◌*◌, ◌<◌, ◌≤◌, compare, Ordering}
use mathlib.Core.Path.{◌≡◌}
use mathlib.Core.Logic.{◌↔◌}
use mathlib.Core.Bool.{Bool, true, false}
use native.Mathlib.Omega.{arith}
use onldaemons.Prelude.Tests.{ltb}

-- `negsuc n` is -(n + 1).
pub data ℤ : Type 0 where
  pos negsuc : ℕ → ℤ

-- An integer is the difference of its two parts, one of which is 0.
abbrev pub pos_part : ℤ → ℕ
pos_part (pos n) = n
pos_part (negsuc n) = 0

abbrev pub neg_part : ℤ → ℕ
neg_part (pos n) = 0
neg_part (negsuc n) = suc n

abbrev pub difference : ℕ → ℕ → ℤ
difference a b = elim (compare a b) [
  | Ordering.lt ↦ negsuc (b - a - 1)
  | Ordering.eq ↦ pos 0
  | Ordering.gt ↦ pos (a - b)
]

infixl 65 ◌+ℤ◌ ◌-ℤ◌
unfoldable pub ◌+ℤ◌ : ℤ → ℤ → ℤ
a +ℤ b = difference (pos_part a + pos_part b) (neg_part a + neg_part b)

unfoldable pub ◌-ℤ◌ : ℤ → ℤ → ℤ
a -ℤ b = difference (pos_part a + neg_part b) (neg_part a + pos_part b)

-- a * n, by a number
infixl 70 ◌*ℕ◌
unfoldable pub ◌*ℕ◌ : ℤ → ℕ → ℤ
a *ℕ n = difference (pos_part a * n) (neg_part a * n)

unfoldable pub ltb_ℤ : ℤ → ℤ → Bool
ltb_ℤ a b = ltb (pos_part a + neg_part b) (pos_part b + neg_part a)

pub +ℤ-parts :
    (a b : ℤ)
    → pos_part (a +ℤ b) + neg_part a + neg_part b ≡ neg_part (a +ℤ b) + pos_part a + pos_part b
unfolding ◌+ℤ◌
+ℤ-parts a b = ground arith

pub -ℤ-parts :
    (a b : ℤ)
    → pos_part (a -ℤ b) + neg_part a + pos_part b ≡ neg_part (a -ℤ b) + pos_part a + neg_part b
unfolding ◌-ℤ◌
-ℤ-parts a b = ground arith

pub ltb_ℤ_iff : (a b : ℤ) → (ltb_ℤ a b ≡ true) ↔ (pos_part a + neg_part b < pos_part b + neg_part a)
unfolding ltb_ℤ
ltb_ℤ_iff a b = ground arith

pub *ℕ-parts :
    (a : ℤ) (n : ℕ) → pos_part (a *ℕ n) + neg_part a * n ≡ neg_part (a *ℕ n) + pos_part a * n
unfolding ◌*ℕ◌
*ℕ-parts a n = ground arith

pub eq_of_parts : (a b : ℤ) → pos_part a + neg_part b ≡ pos_part b + neg_part a → a ≡ b
eq_of_parts a b h = ground arith

pub neg_part_zero : (a : ℤ) → neg_part a ≤ pos_part a → neg_part a ≡ 0
neg_part_zero (pos n) h = omega arith
neg_part_zero (negsuc n) h = absurd (omega arith)

pub pos_part_zero : (a : ℤ) → pos_part a ≤ neg_part a → pos_part a ≡ 0
pos_part_zero (pos n) h = omega arith
pos_part_zero (negsuc n) h = omega arith

pub ltb_ℤ-false : (a b : ℤ) → pos_part b + neg_part a ≤ pos_part a + neg_part b → ltb_ℤ a b ≡ false
unfolding ltb_ℤ
ltb_ℤ-false a b h = ground arith

pub ltb_ℤ_ge : (a b : ℤ) → ltb_ℤ a b ≡ false → pos_part b + neg_part a ≤ pos_part a + neg_part b
unfolding ltb_ℤ
ltb_ℤ_ge a b h = ground arith

pub ruleset int_laws = (arith, +ℤ-parts, -ℤ-parts, eq_of_parts)
