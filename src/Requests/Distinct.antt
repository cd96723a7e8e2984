-- ===== src/Requests/Distinct.antt =====
-- Stacks of distinct numbers below a bound.
use otf_cpt.Common.{ℕ, zero, suc, ◌+◌, ◌<◌, ◌≤◌, ◌≡◌, ◌≢◌, refl, ◌⊎◌, List, [], ◌∷◌, arith}
use otf_cpt.Requests.Factory.{push_range}

abbrev pub Absent : ℕ → List ℕ → Type 0
Absent x [] = Unit
Absent x (y ∷ ys) = (x ≢ y) × Absent x ys

abbrev pub Distinct : List ℕ → Type 0
Distinct [] = Unit
Distinct (x ∷ xs) = Absent x xs × Distinct xs

abbrev pub Below : ℕ → List ℕ → Type 0
Below n [] = Unit
Below n (x ∷ xs) = (x < n) × Below n xs

pub Below-mono : {m n : ℕ} (xs : List ℕ) → m ≤ n → Below m xs → Below n xs
Below-mono [] l b = b
Below-mono (x ∷ xs) l b = (omega (arith, b.0), Below-mono xs l b.1)

pub Below-Absent : {n x : ℕ} (xs : List ℕ) → n ≤ x → Below n xs → Absent x xs
Below-Absent [] l b = b
Below-Absent (y ∷ ys) l b = (λ e. omega (arith, b.0, e), Below-Absent ys l b.1)

pub Below-push_range : (i n : ℕ) (xs : List ℕ) → Below i xs → Below (i + n) (push_range i n xs)
unfolding push_range
Below-push_range i zero xs b = Below-mono xs (omega arith) b
Below-push_range i (suc n) xs b =
    Below-mono (push_range (suc i) n (i ∷ xs)) (omega arith)
      (Below-push_range (suc i) n (i ∷ xs) (omega arith, Below-mono xs (omega arith) b))

pub Distinct-push_range :
    (i n : ℕ) (xs : List ℕ) → Below i xs → Distinct xs → Distinct (push_range i n xs)
unfolding push_range
Distinct-push_range i zero xs b d = d
Distinct-push_range i (suc n) xs b d =
    Distinct-push_range (suc i) n (i ∷ xs) (omega arith, Below-mono xs (omega arith) b)
      (Below-Absent xs (omega arith) b, d)

pub Absent-push_range :
    (i n x : ℕ) (xs : List ℕ) → x < i → Absent x xs → Absent x (push_range i n xs)
unfolding push_range
Absent-push_range i zero x xs l a = a
Absent-push_range i (suc n) x xs l a =
    Absent-push_range (suc i) n x (i ∷ xs) (omega arith) (λ e. omega (arith, e), a)

-- A number that is not among those pushed was not below them, nor among them.
pub push_range-top :
    (i n : ℕ) (xs : List ℕ) → 0 < n → (x : ℕ) × ((r : List ℕ) × (push_range i n xs ≡ x ∷ r))
unfolding push_range
push_range-top i zero xs l = absurd (omega arith)
push_range-top i (suc zero) xs l = (i, (xs, refl))
push_range-top i (suc (suc n)) xs l = push_range-top (suc i) (suc n) (i ∷ xs) (omega arith)

pub Absent-push_range_inv :
    (i n x : ℕ) (xs : List ℕ) → Absent x (push_range i n xs) → Absent x xs × ((x < i) ⊎ (i + n ≤ x))
unfolding push_range
Absent-push_range_inv i zero x xs a = (a, ground arith)
Absent-push_range_inv i (suc n) x xs a =
    let (b, o) = Absent-push_range_inv (suc i) n x (i ∷ xs) a in (b.1, ground (arith, b.0, o))
