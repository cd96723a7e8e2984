-- ===== src/Clock/Atomic/Add.antt =====
-- `atomic_add` under interleaving.
use otf_cpt.Common.{List, [], ◌∷◌, ◌≡◌, refl}
use otf_cpt.Common.Int.{ℤ, pos, ◌+ℤ◌, int_laws, parts_of_eq}
use otf_cpt.Clock.Atomic.{
  Local, enter, loaded, returned, AddStep, Some, this, later, Run, here, then, start, finish,
}

-- What the calls that have returned added.
abbrev added : Local → ℤ
added (enter v) = pos 0
added (loaded v old) = pos 0
added (returned v) = v

abbrev added_all : List Local → ℤ
added_all [] = pos 0
added_all (l ∷ ls) = added l +ℤ added_all ls

abbrev pub sum : List ℤ → ℤ
sum [] = pos 0
sum (v ∷ vs) = v +ℤ sum vs

AddStep-added : {c d : ℤ} {l m : Local} → AddStep c l d m → d +ℤ added l ≡ c +ℤ added m
AddStep-added AddStep.load = refl
AddStep-added (AddStep.exchange {value = v} e) = rw e (omega int_laws)
AddStep-added AddStep.retry = refl

Some-added :
    {c d : ℤ} {ls ms : List Local} → Some AddStep c ls d ms → d +ℤ added_all ls ≡ c +ℤ added_all ms
Some-added {c} {d} (this {l = l} {m = m} s) =
    omega (int_laws, parts_of_eq (d +ℤ added l) (c +ℤ added m) (AddStep-added s))
Some-added {c} {d} (later {ls = ls} {ms = ms} s) =
    omega (int_laws, parts_of_eq (d +ℤ added_all ls) (c +ℤ added_all ms) (Some-added s))

Run-added :
    {c : ℤ} {ls : List Local} {d : ℤ} {ms : List Local}
    → Run AddStep c ls d ms
    → d +ℤ added_all ls ≡ c +ℤ added_all ms
Run-added here = refl
Run-added {c} {ls} {d} {ms} (then {d = d'} {ms = ms'} r s) = omega (
  int_laws,
  parts_of_eq (d' +ℤ added_all ls) (c +ℤ added_all ms') (Run-added r),
  parts_of_eq (d +ℤ added_all ms') (d' +ℤ added_all ms) (Some-added s),
)

added-start : (vs : List ℤ) → added_all (start vs) ≡ pos 0
added-start [] = refl
added-start (v ∷ vs) = rw (added-start vs) (omega int_laws)

added-finish : (vs : List ℤ) → added_all (finish vs) ≡ sum vs
added-finish [] = refl
added-finish (v ∷ vs) = rw (added-finish vs)

-- However the accesses of any number of concurrent calls `atomic_add(cell, v)` interleave, when all
-- have returned the cell holds its first value plus the sum of all the `v`: no addition is lost.
pub atomic_add_lem :
    (c d : ℤ) (vs : List ℤ) → Run AddStep c (start vs) d (finish vs) → d ≡ c +ℤ sum vs
atomic_add_lem c d vs r = omega (
  int_laws,
  parts_of_eq (d +ℤ added_all (start vs)) (c +ℤ added_all (finish vs)) (Run-added r),
  parts_of_eq _ _ (added-start vs),
  parts_of_eq _ _ (added-finish vs),
)
