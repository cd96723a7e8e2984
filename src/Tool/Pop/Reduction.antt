-- ===== src/Tool/Pop/Reduction.antt =====
-- What MPI documents of `MPI_MAX` and `MPI_SUM` in `MPI_Reduce`, and the sums and maxima over processes
-- that `finishMeasurement`, src/critical-core.cpp, divides.
use otf_cpt.Common.{ℕ, ◌+◌, ◌≤◌, ◌≡◌, ◌⊎◌, inl, inr, List, [], ◌∷◌, map, All, arith}
use otf_cpt.Common.Int.{ℤ, pos, negsuc, ◌+ℤ◌, ◌*ℤ◌, ◌≤ℤ◌, +ℤ_parts, *ℤ-add, *ℤ_mono, product_parts}
use native.Mathlib.Nat.{mul-le-mul_left}
use otf_cpt.Tool.World.{Summary}
use otf_cpt.Tool.Pop.{Collective, uc_max, uc_avg}

abbrev pub Any {ℓ} : {A : Type ℓ} → (A → Type 0) → List A → Type 0
Any P [] = ⊥
Any P (x ∷ xs) = P x ⊎ Any P xs

abbrev pub sum_ℤ : List ℤ → ℤ
sum_ℤ [] = pos 0
sum_ℤ (a ∷ l) = a +ℤ sum_ℤ l

abbrev pub sum : List ℕ → ℕ
sum [] = 0
sum (a ∷ l) = a + sum l

pub record IsReduction (c : Collective) : Type 0 where
  pub max_over_ge : (l : List ℤ) → All (λ a. a ≤ℤ c.max_over l) l
  pub max_over-Any : (a : ℤ) (l : List ℤ) → Any (λ b. c.max_over (a ∷ l) ≡ b) (a ∷ l)
  pub sum_over : (l : List ℤ) → c.sum_over l ≡ sum_ℤ l
  pub count_over : (l : List ℕ) → c.count_over l ≡ sum l

-- The values of the processes that are reduced
abbrev pub sums : List Summary → List ℤ
sums l = map (λ a. a.useful) (map uc_avg l)

abbrev pub balanced : List Summary → List ℤ
balanced l = map (λ a. a.balanced) (map uc_avg l)

abbrev pub maxima : List Summary → List ℤ
maxima l = map (λ a. a.useful) (map uc_max l)

abbrev pub counts : List Summary → List ℕ
counts l = map (λ s. s.num_threads) l

-- The values of one process: its sum over the threads is at most that many times its maximum.
pub record IsBalanced (s : Summary) : Type 0 where
  pub threads : 1 ≤ s.num_threads
  pub useful_max : pos 0 ≤ℤ s.useful_max
  pub useful_sum : s.useful_sum ≤ℤ s.useful_max *ℤ pos s.num_threads

+ℤ_mono : (a b c d : ℤ) → a ≤ℤ b → c ≤ℤ d → a +ℤ c ≤ℤ b +ℤ d
+ℤ_mono a b c d h k = omega (arith, +ℤ_parts)

pub sum_useful_le : (l : List Summary) → All IsBalanced l → sum_ℤ (sums l) ≤ℤ sum_ℤ (balanced l)
unfolding uc_avg
sum_useful_le [] all = omega arith
sum_useful_le (s ∷ l) all = +ℤ_mono _ _ _ _ all.0.useful_sum (sum_useful_le l all.1)

pub sum_balanced_le :
    (l : List Summary) (top : ℤ)
    → All (λ a. a ≤ℤ top) (maxima l)
    → sum_ℤ (balanced l) ≤ℤ top *ℤ pos (sum (counts l))
unfolding uc_avg uc_max
sum_balanced_le [] top all = simp product_parts (omega arith)
sum_balanced_le (s ∷ l) top all = rw (*ℤ-add top s.num_threads) (
    +ℤ_mono _ _ _ _ (*ℤ_mono s.useful_max top (pos s.num_threads) all.0 (omega arith))
      (sum_balanced_le l top all.1))

times_ge : (a : ℤ) (n : ℕ) → 1 ≤ n → pos 0 ≤ℤ a → (a ≤ℤ a *ℤ pos n) × (pos 0 ≤ℤ a *ℤ pos n)
times_ge (pos m) n h k = simp product_parts (omega (arith, mul-le-mul_left m h))
times_ge (negsuc m) n h k = absurd (omega arith)

sum_balanced_nonneg : (l : List Summary) → All IsBalanced l → pos 0 ≤ℤ sum_ℤ (balanced l)
unfolding uc_avg
sum_balanced_nonneg [] all = omega arith
sum_balanced_nonneg (s ∷ l) all = omega (
  arith,
  +ℤ_parts,
  times_ge s.useful_max s.num_threads all.0.threads all.0.useful_max,
  sum_balanced_nonneg l all.1,
)

pub sum_balanced_ge :
    (l : List Summary) (top : ℤ)
    → All IsBalanced l
    → Any (λ a. top ≡ a) (maxima l)
    → top ≤ℤ sum_ℤ (balanced l)
unfolding uc_avg uc_max
sum_balanced_ge [] top all any = elim any [ ]
sum_balanced_ge (s ∷ l) top all any =
    let first = times_ge s.useful_max s.num_threads all.0.threads all.0.useful_max in
    let rest = sum_balanced_nonneg l all.1 in
    elim any [
      | inl e ↦ rw e (omega (arith, +ℤ_parts, first, rest))
      | inr h ↦ omega (arith, +ℤ_parts, first, rest, sum_balanced_ge l top all.1 h)
    ]
