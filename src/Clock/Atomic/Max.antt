-- ===== src/Clock/Atomic/Max.antt =====
-- `update_maximum` under interleaving.
use mathlib.Core.Path.{subst}
use otf_cpt.Common.{List, [], ◌∷◌, ◌≡◌, refl, ◌∙◌, ap, ◌↔◌, inl, inr, arith, All, Bool-cases}
use otf_cpt.Common.Int.{ℤ, ◌≤ℤ◌, ltb_ℤ}
use otf_cpt.Clock.Atomic.{
  Local, enter, loaded, returned, MaxStep, Some, this, later, Run, here, then, start, finish,
}

abbrev value_of : Local → ℤ
value_of (enter v) = v
value_of (loaded v prev) = v
value_of (returned v) = v

-- What a thread knows of a cell that only grows.
abbrev Knows : ℤ → Local → Type 0
Knows c (enter v) = Unit
Knows c (loaded v prev) = prev ≤ℤ c
Knows c (returned v) = v ≤ℤ c

Knows-mono : (c d : ℤ) (l : Local) → c ≤ℤ d → Knows c l → Knows d l
Knows-mono c d (enter v) h k = tt
Knows-mono c d (loaded v prev) h k = omega arith
Knows-mono c d (returned v) h k = omega arith

All-Knows-mono : (c d : ℤ) (ls : List Local) → c ≤ℤ d → All (Knows c) ls → All (Knows d) ls
All-Knows-mono c d [] h a = tt
All-Knows-mono c d (l ∷ ls) h (k, a) = (Knows-mono c d l h k, All-Knows-mono c d ls h a)

MaxStep-grows : {c d : ℤ} {l m : Local} → MaxStep c l d m → Knows c l → (c ≤ℤ d) × Knows d m
MaxStep-grows MaxStep.load k = omega arith
MaxStep-grows (MaxStep.leave t) k = ground arith
MaxStep-grows (MaxStep.exchange t e) k = ground arith
MaxStep-grows (MaxStep.retry t) k = omega arith

MaxStep-below :
    {c d : ℤ} {l m : Local} (b : ℤ)
    → MaxStep c l d m
    → c ≤ℤ b
    → value_of l ≤ℤ b
    → (d ≤ℤ b) × (value_of m ≤ℤ b)
MaxStep-below b MaxStep.load h v = (h, v)
MaxStep-below b (MaxStep.leave t) h v = (h, v)
MaxStep-below b (MaxStep.exchange t e) h v = (v, v)
MaxStep-below b (MaxStep.retry t) h v = (h, v)

Some-grows :
    {c d : ℤ} {ls ms : List Local}
    → Some MaxStep c ls d ms
    → All (Knows c) ls
    → (c ≤ℤ d) × All (Knows d) ms
Some-grows {c} {d} (this {ls = ls} s) (k, a) =
    let (g, k') = MaxStep-grows s k in (g, (k', All-Knows-mono c d ls g a))
Some-grows {c} {d} (later {l = l} s) (k, a) =
    let (g, a') = Some-grows s a in (g, (Knows-mono c d l g k, a'))

Some-below :
    {c d : ℤ} {ls ms : List Local} (b : ℤ)
    → Some MaxStep c ls d ms
    → c ≤ℤ b
    → All (λ l. value_of l ≤ℤ b) ls
    → (d ≤ℤ b) × All (λ l. value_of l ≤ℤ b) ms
Some-below b (this s) h (v, a) = let (h', v') = MaxStep-below b s h v in (h', (v', a))
Some-below b (later s) h (v, a) = let (h', a') = Some-below b s h a in (h', (v, a'))

Run-grows :
    {c : ℤ} {ls : List Local} {d : ℤ} {ms : List Local}
    → Run MaxStep c ls d ms
    → All (Knows c) ls
    → (c ≤ℤ d) × All (Knows d) ms
Run-grows here a = (omega arith, a)
Run-grows (then r s) a =
    let (g, a') = Run-grows r a in let (g', a″) = Some-grows s a' in (omega arith, a″)

Run-below :
    {c : ℤ} {ls : List Local} {d : ℤ} {ms : List Local} (b : ℤ)
    → Run MaxStep c ls d ms
    → c ≤ℤ b
    → All (λ l. value_of l ≤ℤ b) ls
    → (d ≤ℤ b) × All (λ l. value_of l ≤ℤ b) ms
Run-below b here h a = (h, a)
Run-below b (then r s) h a = let (h', a') = Run-below b r h a in Some-below b s h' a'

Knows-start : (c : ℤ) (vs : List ℤ) → All (Knows c) (start vs)
Knows-start c [] = tt
Knows-start c (v ∷ vs) = (tt, Knows-start c vs)

values-start : (b : ℤ) (vs : List ℤ) → All (λ v. v ≤ℤ b) vs → All (λ l. value_of l ≤ℤ b) (start vs)
values-start b [] a = tt
values-start b (v ∷ vs) (h, a) = (h, values-start b vs a)

Knows-finish : (b d : ℤ) (vs : List ℤ) → d ≤ℤ b → All (Knows d) (finish vs) → All (λ v. v ≤ℤ b) vs
Knows-finish b d [] h a = tt
Knows-finish b d (v ∷ vs) h (k, a) = (omega arith, Knows-finish b d vs h a)

-- However the accesses of any number of concurrent calls `update_maximum(cell, v)` interleave, when
-- all have returned the cell holds the least upper bound of its first value and all the `v`.
pub update_maximum_lem :
    (c d : ℤ) (vs : List ℤ) (b : ℤ)
    → Run MaxStep c (start vs) d (finish vs)
    → (d ≤ℤ b) ↔ ((c ≤ℤ b) × All (λ v. v ≤ℤ b) vs)
update_maximum_lem c d vs b r =
    let (g, a) = Run-grows r (Knows-start c vs) in
    (
      (λ h. (omega arith, Knows-finish b d vs h a)),
      (λ h. (Run-below b r h.0 (values-start b vs h.1)).0),
    )

-- The values of the calls, which no step changes.
abbrev values : List Local → List ℤ
values [] = []
values (l ∷ ls) = value_of l ∷ values ls

MaxStep-value : {c d : ℤ} {l m : Local} → MaxStep c l d m → value_of m ≡ value_of l
MaxStep-value MaxStep.load = refl
MaxStep-value (MaxStep.leave t) = refl
MaxStep-value (MaxStep.exchange t e) = refl
MaxStep-value (MaxStep.retry t) = refl

Some-values : {c d : ℤ} {ls ms : List Local} → Some MaxStep c ls d ms → values ms ≡ values ls
Some-values (this {ls = ls} s) = ap (λ v. v ∷ values ls) (MaxStep-value s)
Some-values (later {l = l} s) = ap (λ vs. value_of l ∷ vs) (Some-values s)

Run-values :
    {c : ℤ} {ls : List Local} {d : ℤ} {ms : List Local}
    → Run MaxStep c ls d ms
    → values ms ≡ values ls
Run-values here = refl
Run-values (then r s) = Some-values s ∙ Run-values r

values-of-start : (vs : List ℤ) → values (start vs) ≡ vs
values-of-start [] = refl
values-of-start (v ∷ vs) = ap (λ r. v ∷ r) (values-of-start vs)

Run-cons :
    {c : ℤ} {ls : List Local} {d : ℤ} {ms : List Local} (l : Local)
    → Run MaxStep c ls d ms
    → Run MaxStep c (l ∷ ls) d (l ∷ ms)
Run-cons l here = here
Run-cons l (then r s) = then (Run-cons l r) (later s)

Run-append :
    {c d : ℤ} {ls ms : List Local} {e : ℤ} {ns : List Local}
    → Run MaxStep c ls d ms
    → Run MaxStep d ms e ns
    → Run MaxStep c ls e ns
Run-append r here = r
Run-append r (then r' s) = then (Run-append r r') s

-- One thread alone returns after at most three accesses.
alone :
    (c : ℤ) (l : Local) (ls : List Local)
    → (d : ℤ) × Run MaxStep c (l ∷ ls) d (returned (value_of l) ∷ ls)
alone c (returned v) ls = (c, here)
alone c (enter v) ls = elim (Bool-cases (ltb_ℤ c v)) [
  | inl t ↦ (v, then (then here (this MaxStep.load)) (this (MaxStep.exchange t refl)))
  | inr t ↦ (c, then (then here (this MaxStep.load)) (this (MaxStep.leave t)))
]
alone c (loaded v prev) ls = elim (Bool-cases (ltb_ℤ prev v)) [
  | inr t ↦ (c, then here (this (MaxStep.leave t)))
  | inl t ↦ elim (Bool-cases (ltb_ℤ c v)) [
    | inl t' ↦ (v, then (then here (this (MaxStep.retry t))) (this (MaxStep.exchange t' refl)))
    | inr t' ↦ (c, then (then here (this (MaxStep.retry t))) (this (MaxStep.leave t')))
  ]
]

complete : (c : ℤ) (ls : List Local) → (d : ℤ) × Run MaxStep c ls d (finish (values ls))
complete c [] = (c, here)
complete c (l ∷ ls) =
    let (d, r) = alone c l ls in
    let (e, r') = complete d ls in (e, Run-append r (Run-cons (returned (value_of l)) r'))

-- Wherever concurrent calls of `update_maximum` stand, there is a way on by which all return.
pub update_maximum_can_finish :
    (c d : ℤ) (vs : List ℤ) (ms : List Local)
    → Run MaxStep c (start vs) d ms
    → (e : ℤ) × Run MaxStep d ms e (finish vs)
update_maximum_can_finish c d vs ms r =
    let (e, r') = complete d ms in
    (e, subst (λ us. Run MaxStep d ms e (finish us)) (Run-values r ∙ values-of-start vs) r')
