-- ===== src/Flags/Ends.antt =====
-- Predicates on what a call comes to, and how many names are unknown.
use otf_cpt.Common.{
  ℕ, suc, ◌+◌, ◌≡◌, refl, inl, inr, none, some, List, [], ◌∷◌, arith, Option-cases,
}
use otf_cpt.Flags.Values.{Bytes}
use otf_cpt.Flags.Parser.{Flag, Outcome, done, died, out_of_bounds, endless, ◌>>=◌, find_flag}

-- A loop ends; what holds of a result that is returned, and of a write out of bounds.
abbrev pub Ends : {A : Type 0} → (A → Type 0) → Type 0 → Outcome A → Type 0
Ends P O (done a) = P a
Ends P O (died e x) = Unit
Ends P O out_of_bounds = O
Ends P O endless = ⊥

pub Ends-bind :
    {A B : Type 0} (P : A → Type 0) (Q : B → Type 0) (O O' : Type 0) (m : Outcome A)
    (k : A → Outcome B)
    → Ends P O m
    → (O → O')
    → ((a : A) → P a → Ends Q O' (k a))
    → Ends Q O' (m >>= k)
Ends-bind P Q O O' (done a) k h o f = f a h
Ends-bind P Q O O' (died e x) k h o f = tt
Ends-bind P Q O O' out_of_bounds k h o f = o h
Ends-bind P Q O O' endless k h o f = absurd h

pub Ends-imp :
    {A : Type 0} (P Q : A → Type 0) (O O' : Type 0) (m : Outcome A)
    → ((a : A) → P a → Q a)
    → (O → O')
    → Ends P O m
    → Ends Q O' m
Ends-imp P Q O O' (done a) f g h = f a h
Ends-imp P Q O O' (died e x) f g h = tt
Ends-imp P Q O O' out_of_bounds f g h = g h
Ends-imp P Q O O' endless f g h = absurd h

-- How many settings have a name that no flag has.
unfoldable pub count_unknown : List Flag → List (Bytes × Bytes) → ℕ
count_unknown flags [] = 0
count_unknown flags ((name, value) ∷ r) =
    let rest = count_unknown flags r in
    elim (find_flag name flags) [ none ↦ suc rest | some f ↦ rest ]

pub count_unknown-cons :
    (flags : List Flag) (name value : Bytes) (r : List (Bytes × Bytes))
    → count_unknown flags ((name, value) ∷ r)
      ≡ count_unknown flags ((name, value) ∷ []) + count_unknown flags r
unfolding count_unknown
count_unknown-cons flags name value r = elim (Option-cases (find_flag name flags)) [
  | inl e ↦ rw (count_unknown, e) (omega arith)
  | inr (g, e) ↦ rw (count_unknown, e) (omega arith)
]

pub count_unknown-nil : (flags : List Flag) → count_unknown flags [] ≡ 0
unfolding count_unknown
count_unknown-nil flags = refl
