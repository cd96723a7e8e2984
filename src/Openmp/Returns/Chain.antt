-- ===== src/Openmp/Returns/Chain.antt =====
-- The loop of `freeTask`, src/ompt-critical.cpp, and the measure that bounds its rounds: how many tasks
-- have a parent.
use otf_cpt.Common.{
  ℕ, zero, suc, ◌+◌, ◌≡◌, ◌≢◌, ◌≤◌, ◌<◌, refl, sym, ◌∙◌, ap, subst, Option, none, some, arith,
  update, update_self, update-ne, ℕ_discrete, some-injective,
}
use otf_cpt.Common.Int.{pos, ◌-ℤ◌, is_zero}
use otf_cpt.Clock.Metric.{Metric}
use otf_cpt.Openmp.Objects.{delete_task}
use otf_cpt.Openmp.Schedule.{free_task, free_chain}
use otf_cpt.Tool.World.{World, TaskData, reset_task}
use otf_cpt.Tool.Action.{on_task}
use otf_cpt.Openmp.Returns.Ran.{Ran-some, Ran-bind}
use otf_cpt.Openmp.Returns.Good.{Good, Ends, on_flags-Good, when-Ends}
use otf_cpt.Openmp.Returns.Objects.{Freed, delete_task-Freed}

unfoldable one : Option ℕ → ℕ
one none = 0
one (some p) = 1

one-le : (o : Option ℕ) → one o ≤ 1
unfolding one
one-le none = omega arith
one-le (some p) = omega arith

-- How many of the first tasks have a parent.
unfoldable children : ℕ → (ℕ → TaskData) → ℕ
children zero tasks = 0
children (suc n) tasks = one (tasks n).parent + children n tasks

children-le : (n : ℕ) (tasks : ℕ → TaskData) → children n tasks ≤ n
unfolding children
children-le zero tasks = omega arith
children-le (suc n) tasks = omega (arith, children-le n tasks, one-le (tasks n).parent)

children-same :
    (n : ℕ) (f g : ℕ → TaskData)
    → ((j : ℕ) → j < n → (f j).parent ≡ (g j).parent)
    → children n f ≡ children n g
unfolding children
children-same zero f g h = refl
children-same (suc n) f g h =
    let first : one (f n).parent ≡ one (g n).parent = ap one (h n (omega arith)) in
    omega (arith, first, children-same n f g (λ j lt. h j (omega arith)))

children-lt :
    (n i : ℕ) (f g : ℕ → TaskData)
    → i < n
    → (p : ℕ) × ((f i).parent ≡ some p)
    → (g i).parent ≡ none
    → ((j : ℕ) → i ≢ j → (g j).parent ≡ (f j).parent)
    → children n g < children n f
unfolding children one
children-lt zero i f g lt p e h = absurd (omega arith)
children-lt (suc n) i f g lt (p, q) e h = elim (ℕ_discrete i n) [
  | yes same ↦
      let before : one (f n).parent ≡ 1 = ap one (subst (λ j. (f j).parent ≡ some p) same q) in
      let after : one (g n).parent ≡ 0 = ap one (subst (λ j. (g j).parent ≡ none) same e) in
      omega (
        arith,
        before,
        after,
        children-same n g f (λ j below. h j (λ i_j. omega (arith, i_j, same))),
      )
  | no other ↦
      let same : one (g n).parent ≡ one (f n).parent = ap one (h n other) in
      let below : i < n = omega arith in omega (arith, same, children-lt n i f g below (p, q) e h)
]

module _ {M : Type 0} ⦃metric : Metric M⦄ where
  -- The task exists, and there are more rounds left than tasks with a parent.
  abbrev Bounded : ℕ → Option ℕ → World M → Type 0
  Bounded fuel o w =
      (i : ℕ)
      → o ≡ some i
      → (i < w.task_pool.created) × (children w.task_pool.created w.tasks < fuel)

  Freed-Bounded :
      {t : ℕ} (fuel i : ℕ) (d : TaskData) (w w' : World M)
      → d.parent ≡ (w.tasks i).parent
      → Bounded (suc fuel) (some i) w
      → Good t w
      → Freed t i (on_task i (λ e. d) w) w'
      → Bounded fuel (w.tasks i).parent w'
  unfolding reset_task
  Freed-Bounded fuel i d w w' same h g f p e =
      let (below, enough) = h i refl in
      let own : (w'.tasks i).parent ≡ none =
        ap (λ (v : ℕ → TaskData). (v i).parent) f.tasks
        ∙ ap (λ (v : TaskData). v.parent) (update_self (update w.tasks i d) i reset_task) in
      let others : (j : ℕ) → i ≢ j → (w'.tasks j).parent ≡ (w.tasks j).parent = λ j n.
        ap (λ (v : ℕ → TaskData). (v j).parent) f.tasks
        ∙ ap (λ (v : TaskData). v.parent)
            (update-ne (update w.tasks i d) i j reset_task n ∙ update-ne w.tasks i j d n) in
      let less = children-lt w.task_pool.created i w.tasks w'.tasks below (p, e) own others in
      subst (λ n. (p < n) × (children n w'.tasks < fuel)) (sym f.created)
        (((g.valid.linked.tasks i).parent p e).1, omega (arith, less, enough))

  free_task-Ends :
      {t : ℕ} (fuel : ℕ) (o : Option ℕ) (w : World M)
      → Bounded fuel o w
      → Good t w
      → Ends t (free_task fuel t o w)
  unfolding free_task
  free_task-Ends fuel none w h g = Ran-some _ tt w g
  free_task-Ends zero (some i) w h g = absurd (omega (arith, (h i refl).1))
  free_task-Ends {t} (suc fuel) (some i) w h g =
      let d = record (w.tasks i) { ref_count = (w.tasks i).ref_count -ℤ pos 1 } in
      let g₁ = on_flags-Good i d w refl g in
      when-Ends (is_zero ((w.tasks i).ref_count -ℤ pos 1)) _ _ g₁ (
        Ran-bind _ _ (delete_task t i) _ _ (delete_task-Freed i _ (h i refl).0 g₁) λ u w₂ f.
          free_task-Ends fuel (w.tasks i).parent w₂ (Freed-Bounded fuel i d w w₂ refl h g f) f.good)

  pub free_chain-Ends :
      {t : ℕ} (i : ℕ) (w : World M) → i < w.task_pool.created → Good t w → Ends t (free_chain t i w)
  unfolding free_chain
  free_chain-Ends i w lt g =
      free_task-Ends (suc w.task_pool.created) (some i) w
        (λ j e. (
          subst (λ k. k < w.task_pool.created) (some-injective _ _ e) lt,
          omega (arith, children-le w.task_pool.created w.tasks),
        ))
        g
