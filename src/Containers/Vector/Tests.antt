-- ===== src/Containers/Vector/Tests.antt =====
-- Calls on a concrete vector, and the theorems at such inputs.
use otf_cpt.Common.{ℕ, ◌≡◌, refl, Option, some, none, List, [], ◌∷◌, ◌≤◌, arith, map}
use otf_cpt.Containers.Vector.Buffer
use otf_cpt.Containers.Vector.Buffer.{Sized}
use mathlib.Core.Option
use otf_cpt.Containers.Vector.Methods.{Vector, empty, ensure_size}
use otf_cpt.Containers.Vector.Contents.{Holds, Gives, ensure_size-Gives}
use otf_cpt.Containers.Vector.Contract.{
  Call, do_push_back, do_insert_range, do_erase, do_insert, do_pop_back, calls, list_calls, fits,
  calls-Gives,
}

-- Elements of 8 bytes.
instance words : Sized ℕ
words = record { size_of = 8; pos = omega arith }

empty-Holds : Holds {A = ℕ} empty []
unfolding empty Buffer.no_buffer
empty-Holds = record { size = refl; whole = refl; fits = omega arith; cells = λ i. refl }

abbrev edits : List (Call ℕ)
edits =
    do_push_back 7
    ∷ do_insert_range 0 (1 ∷ 2 ∷ 3 ∷ [])
    ∷ do_erase 1 3
    ∷ do_insert 1 9
    ∷ do_push_back 4
    ∷ do_pop_back
    ∷ []

-- The vector that the calls leave has 16 cells, of which three are in use.
edits_leave :
    Option.map {B = ℕ × List (Option ℕ)}
      (λ (v : Vector ℕ). (v.size, map v.buffer.cells (0 ∷ 1 ∷ 2 ∷ 3 ∷ [])))
      (calls edits empty)
    ≡ some (3, some 1 ∷ some 9 ∷ some 7 ∷ none ∷ [])
unfolding calls empty Buffer.new_cap words
edits_leave = refl

calls-Gives_example : Gives {A = ℕ} empty (calls edits empty) (1 ∷ 9 ∷ 7 ∷ [])
unfolding calls list_calls fits words
calls-Gives_example = calls-Gives edits empty [] (1 ∷ 9 ∷ 7 ∷ []) empty-Holds refl

ensure_size-Gives_example :
    (g : Gives {A = ℕ} empty (ensure_size 20 empty) []) × (20 ≤ g.vector.buffer.cap)
unfolding words
ensure_size-Gives_example = ensure_size-Gives 20 empty [] empty-Holds (omega arith)
