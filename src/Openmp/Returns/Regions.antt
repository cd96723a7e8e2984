-- ===== src/Openmp/Returns/Regions.antt =====
-- Barriers, taskwaits and taskgroups in `ompt_tsan_sync_region`, src/ompt-critical.cpp.
use otf_cpt.Common.{
  ℕ, ◌≡◌, ◌<◌, refl, ◌∙◌, ap, subst, some, Bool, true, ltb, ◌||◌, some-injective, update_self,
}
use otf_cpt.Common.Int.{is_zero}
use otf_cpt.Clock.State.{state_omp}
use otf_cpt.Clock.Metric.{Metric}
use otf_cpt.Openmp.Objects.{Sizes, group, new_group}
use otf_cpt.Openmp.Regions.{
  SyncRegion, region_taskwait, region_taskgroup, region_reduction, barrier_begin, barrier_end,
  taskwait_begin, taskwait_end, taskgroup_begin, taskgroup_end, region_begin, region_end,
}
use otf_cpt.Tool.World.{World, TaskData, barrier, taskwait, taskgroup}
use otf_cpt.Tool.Action.{when, on_task, enter, exit, release, acquire}
use otf_cpt.Openmp.Returns.Ran.{Ran, Ran-some, Ran-imp, Ran-bind, Ran-deref}
use otf_cpt.Openmp.Returns.Primitives.{Kept, enter-Quiet, exit-Quiet}
use otf_cpt.Openmp.Returns.Clocks.{release-Quiet, acquire-Quiet, clear-Quiet, when-Quiet}
use otf_cpt.Openmp.Returns.Good.{
  Good, Ends, on_task-Good, on_flags-Good, Quiet-first, Quiet-last, Quiet-end, omp_timer-Ends,
}
use otf_cpt.Openmp.Returns.Objects.{new_group-Ends}
use otf_cpt.Openmp.Returns.Pools.{give_first}

module _ {M : Type 0} ⦃metric : Metric M⦄ where
  -- The task belongs to a team.
  abbrev pub HasTeam : ℕ → World M → Type 0
  HasTeam i w = (team : ℕ) × ((w.tasks i).team ≡ some team)

  -- The task is in a taskgroup.
  abbrev pub HasGroup : ℕ → World M → Type 0
  HasGroup i w = (g : ℕ) × ((w.tasks i).task_group ≡ some g)

  pub tasks-Kept : {t : ℕ} {w w' : World M} (i : ℕ) → Kept t w w' → w'.tasks i ≡ w.tasks i
  tasks-Kept i k = ap (λ o. o.tasks i) k.objects

  -- The task that was written last.
  pub own_task :
      {t i : ℕ} {d : TaskData} (w : World M) {w' : World M}
      → Kept t (on_task i (λ e. d) w) w'
      → w'.tasks i ≡ d
  own_task {i = i} w k = tasks-Kept i k ∙ update_self w.tasks i _

  -- The task has entered a barrier or a wait, and is otherwise as it was.
  abbrev pub Entered : ℕ → ℕ → World M → World M → Type 0
  Entered t i w w' = Good t w' × (w'.tasks i ≡ record (w.tasks i) { in_barrier = true })

  pub barrier_begin-Entered :
      {t : ℕ} (i : ℕ) (w : World M)
      → HasTeam i w
      → Good t w
      → Ran (λ u w'. Entered t i w w') (barrier_begin t i w)
  unfolding barrier_begin
  barrier_begin-Entered {t} i w (team, e) g =
      let g₁ = on_flags-Good i (record (w.tasks i) { in_barrier = true }) w refl g in
      Quiet-first _ (enter t state_omp) _ _ (enter-Quiet t state_omp) g₁ λ w₂ k₂ g₂.
        Ran-deref _ (w₂.tasks i).team team _ w₂ (ap (λ d. d.team) (own_task w k₂) ∙ e) (
          Quiet-first _ (release t (barrier team (w₂.tasks i).barrier_index)) _ w₂
            (release-Quiet t _) g₂
            λ w₃ k₃ g₃.
              Quiet-end _ _ w₃ (when-Quiet _ _ (clear-Quiet t _)) g₃
                (λ w₄ k₄. tasks-Kept i k₄ ∙ tasks-Kept i k₃ ∙ own_task w k₂))

  pub barrier_end-Ends :
      {t : ℕ} (has_parallel : Bool) (i : ℕ) (w : World M)
      → HasTeam i w
      → Good t w
      → Ends t (barrier_end has_parallel t i w)
  unfolding barrier_end
  barrier_end-Ends {t} has_parallel i w (team, e) g = Ran-deref _ (w.tasks i).team team _ w e (
      Quiet-first _
        (when (has_parallel || is_zero (w.tasks i).thread_num)
          (acquire t (barrier team (w.tasks i).barrier_index)))
        _ w (when-Quiet (has_parallel || is_zero (w.tasks i).thread_num) _ (acquire-Quiet t _)) g
        λ w₁ k₁ g₁.
          let g₂ = on_flags-Good i _ w₁ refl g₁ in
          let g₃ = on_flags-Good i _ _ refl g₂ in
          Quiet-last (exit t (w.tasks i).is_running) _ (exit-Quiet t _) g₃)

  pub taskwait_begin-Entered :
      {t : ℕ} (i : ℕ) (w : World M)
      → Good t w
      → Ran (λ u w'. Entered t i w w') (taskwait_begin t i w)
  unfolding taskwait_begin
  taskwait_begin-Entered {t} i w g =
      Quiet-end _ (enter t state_omp) _ (enter-Quiet t state_omp) (on_flags-Good i _ w refl g)
        (λ w' k. own_task w k)

  pub taskwait_end-Ends : {t : ℕ} (i : ℕ) (w : World M) → Good t w → Ends t (taskwait_end t i w)
  unfolding taskwait_end
  taskwait_end-Ends {t} i w g =
      Quiet-first _ (when (ltb 1 (w.tasks i).execution) (acquire t (taskwait i))) _ w
        (when-Quiet (ltb 1 (w.tasks i).execution) _ (acquire-Quiet t _)) g
        λ w₁ k₁ g₁. Quiet-last (exit t _) _ (exit-Quiet t _) (on_flags-Good i _ w₁ refl g₁)

  pub taskgroup_begin-Ends :
      {t : ℕ} (sizes : Sizes) (i : ℕ) (w : World M)
      → Good t w
      → Ran (λ u w'. Good t w' × HasGroup i w') (taskgroup_begin sizes t i w)
  unfolding taskgroup_begin
  taskgroup_begin-Ends {t} sizes i w g =
      Ran-bind _ _ (new_group sizes t (w.tasks i).task_group) _ w
        (new_group-Ends sizes (w.tasks i).task_group w (g.valid.linked.tasks i).group g)
        λ x w₁ (g₁, lt, same).
          let v = g₁.valid.linked.tasks i in
          Ran-some _ tt _ (
            on_task-Good i _ w₁
                (record {
                  parent = v.parent;
                  group = λ y e. subst (λ z. z < w₁.group_pool.created) (some-injective _ _ e) lt;
                  map = v.map;
                })
                g₁,
            (x, ap (λ d. d.task_group) (update_self w₁.tasks i _)),
          )

  pub taskgroup_end-Ends :
      {t : ℕ} (i : ℕ) (w : World M) → HasGroup i w → Good t w → Ends t (taskgroup_end t i w)
  unfolding taskgroup_end
  taskgroup_end-Ends {t} i w (x, e) g = omp_timer-Ends _ w g λ w₁ k₁ g₁.
      let e₁ = ap (λ d. d.task_group) (tasks-Kept i k₁) ∙ e in
      Ran-deref _ (w₁.tasks i).task_group x _ w₁ e₁ (
        Quiet-first _ (acquire t (taskgroup x)) _ w₁ (acquire-Quiet t _) g₁ λ w₂ k₂ g₂.
          give_first group x _ _ w₂
            ((g₂.valid.linked.tasks i).group x (ap (λ d. d.task_group) (tasks-Kept i k₂) ∙ e₁)) g₂
            λ ps same g₃.
              let v = g₃.valid.linked.tasks i in
              Ran-some _ tt _ (
                on_task-Good i _ _
                  (record { parent = v.parent; group = g₃.valid.linked.groups x; map = v.map }) g₃))

  -- What a region needs of its task at its begin, and at its end.
  abbrev pub CanBegin : SyncRegion → ℕ → World M → Type 0
  CanBegin region_taskwait i w = Unit
  CanBegin region_taskgroup i w = Unit
  CanBegin region_reduction i w = Unit
  CanBegin _ i w = HasTeam i w

  abbrev pub CanEnd : SyncRegion → ℕ → World M → Type 0
  CanEnd region_taskwait i w = Unit
  CanEnd region_taskgroup i w = HasGroup i w
  CanEnd region_reduction i w = Unit
  CanEnd _ i w = HasTeam i w

  pub region_begin-Ends :
      {t : ℕ} (sizes : Sizes) (kind : SyncRegion) (i : ℕ) (w : World M)
      → CanBegin kind i w
      → Good t w
      → Ran (λ u w'. Good t w' × CanEnd kind i w') (region_begin sizes kind t i w)
  unfolding region_begin
  region_begin-Ends sizes region_taskwait i w h g =
      Ran-imp _ _ (λ u w' b. (b.0, tt)) (taskwait_begin-Entered i w g)
  region_begin-Ends sizes region_taskgroup i w h g = taskgroup_begin-Ends sizes i w g
  region_begin-Ends {t} sizes region_reduction i w h g = Ran-some _ tt w (g, tt)
  region_begin-Ends sizes _ i w h g =
      Ran-imp _ _ (λ u w' b. (b.0, (h.0, ap (λ d. d.team) b.1 ∙ h.1)))
        (barrier_begin-Entered i w h g)

  pub region_end-Ends :
      {t : ℕ} (kind : SyncRegion) (has_parallel : Bool) (i : ℕ) (w : World M)
      → CanEnd kind i w
      → Good t w
      → Ends t (region_end kind has_parallel t i w)
  unfolding region_end
  region_end-Ends region_taskwait has_parallel i w h g = taskwait_end-Ends i w g
  region_end-Ends region_taskgroup has_parallel i w h g = taskgroup_end-Ends i w h g
  region_end-Ends {t} region_reduction has_parallel i w h g = Ran-some _ tt w g
  region_end-Ends _ has_parallel i w h g = barrier_end-Ends has_parallel i w h g
