-- ===== src/Common/Maps.antt =====
-- Total maps from numbers, which stand for the objects of a program, and predicates on lists.
use Prim.Native.Nat.{ℕ}
use mathlib.Core.Path.{◌≡◌, subst}
use mathlib.Core.Logic.{◌≢◌, ite}
use mathlib.Core.Bool.{Bool, true, false}
use mathlib.Core.List.{List, [], ◌∷◌}
use native.Mathlib.Omega.{arith}
use native.Mathlib.Decide.{ℕ_discrete}
use otf_cpt.Common.Tests.{◌==◌, if◌then◌else◌}

module _ {ℓ} {A : Type ℓ} where
  abbrev pub update : (ℕ → A) → ℕ → A → ℕ → A
  update f k v j = if k == j then v else f j

  abbrev pub All {κ} : (A → Type κ) → List A → Type κ
  All P [] = Unit
  All P (x ∷ xs) = P x × All P xs

  -- What holds of the new value and of all old ones holds of every value after an update.
  pub update-All {κ} :
      (P : A → Type κ) (f : ℕ → A) (k : ℕ) (v : A)
      → P v
      → ((j : ℕ) → P (f j))
      → (j : ℕ) → P (update f k v j)
  update-All P f k v h all j = choose (k == j)
    where
      choose : (b : Bool) → P (if b then v else f j)
      choose true = h
      choose false = all j

  pub update_self : (f : ℕ → A) (k : ℕ) (v : A) → update f k v k ≡ v
  update_self f k v = ground arith

  pub update-ne : (f : ℕ → A) (k j : ℕ) (v : A) → k ≢ j → update f k v j ≡ f j
  update-ne f k j v h = ground arith

  -- The same for a property that depends on the key.
  pub update-Each {κ} :
      (P : ℕ → A → Type κ) (f : ℕ → A) (k : ℕ) (v : A)
      → P k v
      → ((j : ℕ) → k ≢ j → P j (f j))
      → (j : ℕ) → P j (update f k v j)
  update-Each P f k v h others j = elim (ℕ_discrete k j) [
    | yes e ↦ subst (λ i. P i (update f k v i)) e (rw (update_self f k v) h)
    | no n ↦ rw (update-ne f k j v n) (others j n)
  ]

  -- What holds of both values holds of the one that is chosen.
  pub ite_both {κ μ} :
      {C : Type μ} (P : A → Type κ) (d : Dec C) (a b : A) → P a → P b → P (ite d a b)
  ite_both P (yes c) a b h k = h
  ite_both P (no n) a b h k = k
