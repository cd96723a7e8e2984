-- ===== src/Common/Int.antt =====
-- Signed integers over the native numbers, under the library's names (its ℤ stands on the unary ℕ).
-- Sums and orders go through the two parts of an integer, which are numbers that `omega` reads.
use Prim.Native.Nat.{ℕ, zero, suc, ◌+◌, ◌-◌, ◌*◌, ◌≤◌}
use mathlib.Core.Path.{◌≡◌, refl, ap, ◌∙◌}
use native.Mathlib.Nat.{mul-le-mul, mul-le-mul_right, eq_of_mul-eq-mul_right}
use mathlib.Core.Logic.{◌↔◌, ◌≢◌}
use mathlib.Core.Bool.{Bool}
use native.Mathlib.Omega.{arith}
use otf_cpt.Common.Tests.{ltb, leb, ◌==◌, if◌then◌else◌}

-- `negsuc n` is -(n + 1).
pub data ℤ : Type 0 where
  pos : ℕ → ℤ
  negsuc : ℕ → ℤ

abbrev pub pos_part : ℤ → ℕ
pos_part (pos n) = n
pos_part (negsuc n) = 0

abbrev pub neg_part : ℤ → ℕ
neg_part (pos n) = 0
neg_part (negsuc n) = suc n

-- a - b, as an integer.
abbrev pub sub_ℕ : ℕ → ℕ → ℤ
sub_ℕ a b = if leb b a then pos (a - b) else negsuc (b - a - 1)

infixl 65 ◌+ℤ◌ ◌-ℤ◌
infix 50 ◌≤ℤ◌
unfoldable pub ◌+ℤ◌ : ℤ → ℤ → ℤ
a +ℤ b = sub_ℕ (pos_part a + pos_part b) (neg_part a + neg_part b)

unfoldable pub ◌-ℤ◌ : ℤ → ℤ → ℤ
a -ℤ b = sub_ℕ (pos_part a + neg_part b) (neg_part a + pos_part b)

unfoldable pub neg : ℤ → ℤ
neg a = sub_ℕ (neg_part a) (pos_part a)

abbrev pub ◌≤ℤ◌ : ℤ → ℤ → Type 0
a ≤ℤ b = pos_part a + neg_part b ≤ pos_part b + neg_part a

abbrev pub ltb_ℤ : ℤ → ℤ → Bool
ltb_ℤ a b = ltb (pos_part a + neg_part b) (pos_part b + neg_part a)

abbrev pub is_zero : ℤ → Bool
is_zero a = pos_part a + neg_part a == 0

unfoldable pub max_ℤ : ℤ → ℤ → ℤ
max_ℤ a b = if ltb_ℤ a b then b else a

-- One lemma for each operation lets `omega` work with the operations shut, at any depth.
pub +ℤ_parts :
    (a b : ℤ)
    → pos_part (a +ℤ b) + neg_part a + neg_part b ≡ neg_part (a +ℤ b) + pos_part a + pos_part b
unfolding ◌+ℤ◌
+ℤ_parts a b = ground arith

pub -ℤ_parts :
    (a b : ℤ)
    → pos_part (a -ℤ b) + neg_part a + pos_part b ≡ neg_part (a -ℤ b) + pos_part a + neg_part b
unfolding ◌-ℤ◌
-ℤ_parts a b = ground arith

pub neg_parts : (a : ℤ) → pos_part (neg a) + pos_part a ≡ neg_part (neg a) + neg_part a
unfolding neg
neg_parts a = ground arith

pub max_ℤ_le : (a b c : ℤ) → (max_ℤ a b ≤ℤ c) ↔ ((a ≤ℤ c) × (b ≤ℤ c))
unfolding max_ℤ
max_ℤ_le a b c = ground arith

pub max_ℤ_ge : (a b : ℤ) → (a ≤ℤ max_ℤ a b) × (b ≤ℤ max_ℤ a b)
unfolding max_ℤ
max_ℤ_ge a b = ground arith

pub max_ℤ_mono : (a b c d : ℤ) → a ≤ℤ c → b ≤ℤ d → max_ℤ a b ≤ℤ max_ℤ c d
unfolding max_ℤ
max_ℤ_mono a b c d h k = ground arith

pub eq_of_parts : (a b : ℤ) → pos_part a + neg_part b ≡ pos_part b + neg_part a → a ≡ b
eq_of_parts a b h = ground arith

pub ruleset int_laws = (arith, +ℤ_parts, -ℤ_parts, neg_parts, eq_of_parts)

-- An equation of integers as `omega` reads it.
pub parts_of_eq : (a b : ℤ) → a ≡ b → pos_part a + neg_part b ≡ pos_part b + neg_part a
parts_of_eq a b h = rw h

infixl 70 ◌*ℤ◌
unfoldable pub ◌*ℤ◌ : ℤ → ℤ → ℤ
a *ℤ b =
    sub_ℕ (pos_part a * pos_part b + neg_part a * neg_part b)
      (pos_part a * neg_part b + neg_part a * pos_part b)

pub pos_part-*ℤ : (a b : ℤ) → pos_part (a *ℤ b) ≡ pos_part a * pos_part b + neg_part a * neg_part b
unfolding ◌*ℤ◌
pos_part-*ℤ a b = ground arith

pub neg_part-*ℤ : (a b : ℤ) → neg_part (a *ℤ b) ≡ pos_part a * neg_part b + neg_part a * pos_part b
unfolding ◌*ℤ◌
neg_part-*ℤ a b = ground arith

pub ruleset product_parts = (pos_part-*ℤ, neg_part-*ℤ)

pub *ℤ_comm : (a b : ℤ) → a *ℤ b ≡ b *ℤ a
*ℤ_comm a b = eq_of_parts _ _ (simp product_parts (omega arith))

pub *ℤ_assoc : (a b c : ℤ) → a *ℤ b *ℤ c ≡ a *ℤ (b *ℤ c)
*ℤ_assoc a b c = eq_of_parts _ _ (simp product_parts (omega arith))

pub *ℤ_left_comm : (a b c : ℤ) → a *ℤ (b *ℤ c) ≡ b *ℤ (a *ℤ c)
*ℤ_left_comm a b c = eq_of_parts _ _ (simp product_parts (omega arith))

pub *ℤ_one : (a : ℤ) → a *ℤ pos 1 ≡ a
*ℤ_one a = eq_of_parts _ _ (simp product_parts (omega arith))

pub *ℤ-add : (a : ℤ) (m n : ℕ) → a *ℤ pos (m + n) ≡ a *ℤ pos m +ℤ a *ℤ pos n
*ℤ-add a m n =
    eq_of_parts _ _ (
      simp product_parts
        (omega (arith, simp product_parts at (+ℤ_parts (a *ℤ pos m) (a *ℤ pos n)))))

pub *ℤ_mono : (a b c : ℤ) → a ≤ℤ b → pos 0 ≤ℤ c → a *ℤ c ≤ℤ b *ℤ c
*ℤ_mono a b (pos n) h k = simp product_parts (omega (arith, mul-le-mul_right n h))
*ℤ_mono a b (negsuc n) h k = absurd (omega arith)

pub *ℤ_pos : (a b : ℤ) → pos 1 ≤ℤ a → pos 1 ≤ℤ b → pos 1 ≤ℤ a *ℤ b
*ℤ_pos (pos m) (pos n) h k = simp product_parts (omega (arith, mul-le-mul h k))
*ℤ_pos (negsuc m) b h k = absurd (omega arith)
*ℤ_pos (pos m) (negsuc n) h k = absurd (omega arith)

pub *ℤ_cancel : (a b c : ℤ) → c ≢ pos 0 → a *ℤ c ≡ b *ℤ c → a ≡ b
*ℤ_cancel a b (pos zero) h e = absurd (h refl)
*ℤ_cancel a b (pos (suc n)) h e = eq_of_parts a b (
    eq_of_mul-eq-mul_right (suc n) (omega arith) _ _
      (omega (arith, simp product_parts at (ap pos_part e), simp product_parts at (ap neg_part e))))
*ℤ_cancel a b (negsuc n) h e = eq_of_parts a b (
    eq_of_mul-eq-mul_right (suc n) (omega arith) _ _
      (omega (arith, simp product_parts at (ap pos_part e), simp product_parts at (ap neg_part e))))

pub *ℤ_nonzero : (a b : ℤ) → a ≢ pos 0 → b ≢ pos 0 → a *ℤ b ≢ pos 0
*ℤ_nonzero a b h k e = h (*ℤ_cancel a (pos 0) b k (e ∙ zero_left b))
  where
    zero_left : (b : ℤ) → pos 0 ≡ pos 0 *ℤ b
    zero_left b = eq_of_parts _ _ (simp product_parts (omega arith))
