-- ===== src/Common/Ratio.antt =====
-- Quotients of integers, for the doubles that the program divides. Rounding is not modelled; a
-- denominator may be 0, as in a division by 0.0.
use otf_cpt.Common.{◌≡◌, ◌≢◌, refl, sym, arith}
use otf_cpt.Common.Int.{
  ℤ, pos, ◌+ℤ◌, ◌*ℤ◌, ◌≤ℤ◌, *ℤ_comm, *ℤ_assoc, *ℤ_left_comm, *ℤ_one, *ℤ_cancel, *ℤ_nonzero,
}

pub record Ratio : Type 0 where
  pub num : ℤ
  pub den : ℤ

abbrev pub whole : ℤ → Ratio
whole a = record { num = a; den = pos 1 }

infixl 70 ◌times◌ ◌over◌
abbrev pub ◌times◌ : Ratio → Ratio → Ratio
x times y = record { num = x.num *ℤ y.num; den = x.den *ℤ y.den }

abbrev pub ◌over◌ : Ratio → Ratio → Ratio
x over y = record { num = x.num *ℤ y.den; den = x.den *ℤ y.num }

abbrev pub plus : Ratio → ℤ → Ratio
plus x a = record { num = x.num +ℤ a *ℤ x.den; den = x.den }

abbrev pub IsFinite : Ratio → Type 0
IsFinite x = x.den ≢ pos 0

-- Neither 0 nor infinite
abbrev pub IsUsual : Ratio → Type 0
IsUsual x = (x.num ≢ pos 0) × (x.den ≢ pos 0)

-- Two finite quotients with one value
infix 4 ◌≈◌
pub record ◌≈◌ (x y : Ratio) : Type 0 where
  pub left : IsFinite x
  pub right : IsFinite y
  pub cross : x.num *ℤ y.den ≡ y.num *ℤ x.den

-- A finite quotient, of a positive denominator, of at most one
abbrev pub IsAtMostOne : Ratio → Type 0
IsAtMostOne x = (pos 1 ≤ℤ x.den) × (x.num ≤ℤ x.den)

ruleset product_laws = (*ℤ_comm, *ℤ_assoc, *ℤ_left_comm, *ℤ_one)

right_comm : (a b c : ℤ) → a *ℤ b *ℤ c ≡ a *ℤ c *ℤ b
right_comm a b c = simp product_laws

interchange : (a b c d : ℤ) → (a *ℤ b) *ℤ (c *ℤ d) ≡ (a *ℤ c) *ℤ (b *ℤ d)
interchange a b c d = simp product_laws

pub times-Usual : (x y : Ratio) → IsUsual x → IsUsual y → IsUsual (x times y)
times-Usual x y h k = (*ℤ_nonzero _ _ h.0 k.0, *ℤ_nonzero _ _ h.1 k.1)

pub over-Usual : (x y : Ratio) → IsUsual x → IsUsual y → IsUsual (x over y)
over-Usual x y h k = (*ℤ_nonzero _ _ h.0 k.1, *ℤ_nonzero _ _ h.1 k.0)

pub whole-Usual : (a : ℤ) → a ≢ pos 0 → IsUsual (whole a)
whole-Usual a h = (h, λ e. grind (arith, e))

pub ≈_refl : (x : Ratio) → IsFinite x → x ≈ x
≈_refl x h = record { left = h; right = h; cross = refl }

pub ≈_sym : {x y : Ratio} → x ≈ y → y ≈ x
≈_sym e = record { left = e.right; right = e.left; cross = sym e.cross }

pub ≈_trans : {x y z : Ratio} → x ≈ y → y ≈ z → x ≈ z
≈_trans {x} {y} {z} e f = record {
  left = e.left;
  right = f.right;
  cross =
      *ℤ_cancel _ _ y.den e.right
        (rw (right_comm x.num, e.cross, right_comm y.num, f.cross) (right_comm z.num _ _));
}

pub times_congr : {x x' y y' : Ratio} → x ≈ x' → y ≈ y' → x times y ≈ x' times y'
times_congr {x} {x'} {y} {y'} e f = record {
  left = *ℤ_nonzero _ _ e.left f.left;
  right = *ℤ_nonzero _ _ e.right f.right;
  cross = rw (interchange x.num, e.cross, f.cross) (interchange x'.num _ _ _);
}

-- What a quotient was divided by is its factor.
pub over-times : (x y : Ratio) → IsFinite x → IsUsual y → x ≈ y times (x over y)
over-times x y h k = record {
  left = h;
  right = *ℤ_nonzero _ _ k.1 (*ℤ_nonzero _ _ h k.0);
  cross = simp product_laws;
}

pub over-times_right : (x y : Ratio) → IsFinite x → IsUsual y → x ≈ (x over y) times y
over-times_right x y h k = record {
  left = h;
  right = *ℤ_nonzero _ _ (*ℤ_nonzero _ _ h k.0) k.1;
  cross = simp product_laws;
}

pub over-chain :
    (x y z : Ratio) → IsFinite x → IsUsual y → IsUsual z → x over z ≈ (x over y) times (y over z)
over-chain x y z h k l = record {
  left = *ℤ_nonzero _ _ h l.0;
  right = *ℤ_nonzero _ _ (*ℤ_nonzero _ _ h k.0) (*ℤ_nonzero _ _ k.1 l.0);
  cross = simp product_laws;
}

pub times_interchange :
    (a b c d : Ratio) → (a times b) times (c times d) ≡ (a times c) times (b times d)
times_interchange a b c d = λ i. record {
  num = interchange a.num b.num c.num d.num i;
  den = interchange a.den b.den c.den d.den i;
}
