-- ===== src/Clock/Atomic.antt =====
-- include/criticalPath.h and src/critical-core.cpp: `update_maximum` and `atomic_add`, the loops by
-- which `TimeMetric` changes its `std::atomic<double>`, as any number of threads run them at once.
-- Each access to the atomic is one step; a weak exchange may also fail for no reason.
pub mod Max
pub mod Add
use otf_cpt.Common.{
  ℕ, Bool, true, false, List, [], ◌∷◌, ◌≡◌, refl, ◌⊎◌, inl, inr, arith, All, if◌then◌else◌,
}
use otf_cpt.Common.Int.{ℤ, pos, ◌+ℤ◌, ◌≤ℤ◌, ltb_ℤ, max_ℤ, max_ℤ_le, int_laws}

-- Where one thread stands in its call for `value`.
pub data Local : Type 0 where
  -- before the first load
  enter : ℤ → Local
  -- in front of the test of the loop, with `prev_value` (`old`) loaded
  loaded : ℤ → ℤ → Local
  returned : ℤ → Local

-- One step of one thread: the cell before, the thread before, the cell after, the thread after.
pub data MaxStep : ℤ → Local → ℤ → Local → Type 0 where
  load : {c value : ℤ} → MaxStep c (enter value) c (loaded value c)
  -- `prev_value < value` fails
  leave :
      {c value prev : ℤ}
      → ltb_ℤ prev value ≡ false
      → MaxStep c (loaded value prev) c (returned value)
  -- the exchange succeeds
  exchange :
      {c value prev : ℤ}
      → ltb_ℤ prev value ≡ true
      → c ≡ prev
      → MaxStep c (loaded value prev) value (returned value)
  -- the exchange fails and loads the current value
  retry :
      {c value prev : ℤ}
      → ltb_ℤ prev value ≡ true
      → MaxStep c (loaded value prev) c (loaded value c)

pub data AddStep : ℤ → Local → ℤ → Local → Type 0 where
  load : {c value : ℤ} → AddStep c (enter value) c (loaded value c)
  exchange :
      {c value old : ℤ} → c ≡ old → AddStep c (loaded value old) (old +ℤ value) (returned value)
  retry : {c value old : ℤ} → AddStep c (loaded value old) c (loaded value c)

-- A step of one of the threads of a list, by a step relation `R` of a single thread.
pub data Some (R : ℤ → Local → ℤ → Local → Type 0) : ℤ → List Local → ℤ → List Local → Type 0 where
  this : {c d : ℤ} {l m : Local} {ls : List Local} → R c l d m → Some R c (l ∷ ls) d (m ∷ ls)
  later :
      {c d : ℤ} {l : Local} {ls ms : List Local} → Some R c ls d ms → Some R c (l ∷ ls) d (l ∷ ms)

pub data Run (R : ℤ → Local → ℤ → Local → Type 0) (c : ℤ) (ls : List Local)
    : ℤ → List Local → Type 0 where
  here : Run R c ls c ls
  then : {d e : ℤ} {ms ns : List Local} → Run R c ls d ms → Some R d ms e ns → Run R c ls e ns

abbrev pub start : List ℤ → List Local
start [] = []
start (v ∷ vs) = enter v ∷ start vs

abbrev pub finish : List ℤ → List Local
finish [] = []
finish (v ∷ vs) = returned v ∷ finish vs
