-- ===== src/Openmp/Returns/Schedule.antt =====
-- The callback that schedules tasks, src/ompt-critical.cpp, by the status of the first task.
use otf_cpt.Common.{ℕ, ◌≡◌, ◌<◌, refl, sym, subst, Option, none, some, not}
use otf_cpt.Clock.State.{state_omp}
use otf_cpt.Clock.Metric.{Metric}
use otf_cpt.Openmp.Dependences.{acquire_dependencies}
use otf_cpt.Openmp.Schedule.{
  Status, complete, cancelled, detach, yielded, switched, early_fulfill, late_fulfill,
  taskwait_complete, free_chain, suspend_untied, suspend_task, suspend_task_end, finish_first,
  detach_first, suspend_first, fulfill_early, fulfill_late, complete_taskwait, schedule,
  task_schedule,
}
use otf_cpt.Tool.World.{World, TaskData, OmptCounts, task}
use otf_cpt.Tool.Action.{Act, done, when, enter, release, acquire}
use otf_cpt.Openmp.Returns.Ran.{Ran-some, Ran-deref}
use otf_cpt.Openmp.Returns.Primitives.{Kept, Quiet, Quiet-bind, enter-Quiet, exit-Quiet}
use otf_cpt.Openmp.Returns.Clocks.{
  release-Quiet, acquire-Quiet, when-Quiet, count-Quiet, done-Quiet,
}
use otf_cpt.Openmp.Returns.Good.{Good, Ends, Quiet-first, on_flags-Good, then-Good, omp_timer-Ends}
use otf_cpt.Openmp.Returns.Regions.{tasks-Kept}
use otf_cpt.Openmp.Returns.Dependences.{acquire_dependencies-Quiet}
use otf_cpt.Openmp.Returns.Chain.{free_chain-Ends}
use otf_cpt.Openmp.Returns.Complete.{IsChild, complete_first, start_task-Ends}

-- A task is only suspended for another one.
abbrev pub CanSuspend : Option ℕ → Option ℕ → Type 0
CanSuspend first second = (i : ℕ) → first ≡ some i → (j : ℕ) × (second ≡ some j)

module _ {M : Type 0} ⦃metric : Metric M⦄ where
  suspend_task_end-Quiet : (t i : ℕ) → Quiet {M = M} t (suspend_task_end t i)
  unfolding suspend_task_end
  suspend_task_end-Quiet t i w v b = exit-Quiet t (w.tasks i).is_running w v b

  -- What the first task must have, where there is one.
  abbrev pub CanFinish : Option ℕ → World M → Type 0
  CanFinish first w = (i : ℕ) → first ≡ some i → IsChild (w.tasks i)

  finish_first-Ends :
      {t : ℕ} (first second : Option ℕ) (w : World M)
      → CanFinish first w
      → Good t w
      → Ends t (finish_first t first second w)
  unfolding finish_first
  finish_first-Ends none second w h g = start_task-Ends second w g
  finish_first-Ends {t} (some i) second w h g =
      Quiet-first _ (suspend_task_end t i) _ w (suspend_task_end-Quiet t i) g λ w₁ k₁ g₁.
        complete_first i _ w₁ (subst IsChild (sym (tasks-Kept i k₁)) (h i refl)) g₁ λ w₂ lt g₂.
          then-Good (free_chain t i) _ w₂ (free_chain-Ends i w₂ lt g₂)
            λ u w₃ g₃. start_task-Ends second w₃ g₃

  detach_first-Ends :
      {t : ℕ} (first second : Option ℕ) (w : World M)
      → Good t w
      → Ends t (detach_first t first second w)
  unfolding detach_first
  detach_first-Ends none second w g = start_task-Ends second w g
  detach_first-Ends {t} (some i) second w g =
      Quiet-first _ (suspend_task_end t i) _ w (suspend_task_end-Quiet t i) g
        λ w₁ k₁ g₁. start_task-Ends second w₁ g₁

  suspend_untied-Quiet : (t i : ℕ) (d : TaskData) → Quiet {M = M} t (suspend_untied t i d)
  unfolding suspend_untied
  suspend_untied-Quiet t i d =
      Quiet-bind _ _ (when-Quiet d.in_barrier _ (enter-Quiet t state_omp))
        (when-Quiet (not d.in_barrier) _ (Quiet-bind _ _ (exit-Quiet t _) (release-Quiet t _)))

  suspend_task-Ends :
      {t : ℕ} (first second : Option ℕ) (w : World M)
      → CanSuspend first second
      → Good t w
      → Ends t (suspend_task t first second w)
  unfolding suspend_task
  suspend_task-Ends none second w h g = Ran-some _ tt w g
  suspend_task-Ends {t} (some i) second w h g =
      let d = w.tasks i in
      Quiet-first _ (when d.task_type.untied (suspend_untied t i d)) _ w
        (when-Quiet d.task_type.untied _ (suspend_untied-Quiet t i d)) g
        λ w₁ k₁ g₁.
          Quiet-first _ (when (not d.task_type.untied) (enter t state_omp)) _ w₁
            (when-Quiet (not d.task_type.untied) _ (enter-Quiet t state_omp)) g₁
            λ w₂ k₂ g₂.
              Ran-deref _ second (h i refl).0 _ w₂ (h i refl).1
                (Ran-some _ tt _ (on_flags-Good (h i refl).0 _ w₂ refl g₂))

  suspend_first-Ends :
      {t : ℕ} (first second : Option ℕ) (w : World M)
      → CanSuspend first second
      → Good t w
      → Ends t (suspend_first t first second w)
  unfolding suspend_first
  suspend_first-Ends {t} first second w h g =
      then-Good (suspend_task t first second) _ w (suspend_task-Ends first second w h g)
        λ u w₁ g₁. start_task-Ends second w₁ g₁

  fulfill_early-Ends : {t : ℕ} (i : ℕ) (w : World M) → Good t w → Ends t (fulfill_early t i w)
  unfolding fulfill_early
  fulfill_early-Ends {t} i w g =
      Quiet-first _ (release t (task i)) _ w (release-Quiet t _) g
        λ w₁ k₁ g₁. Ran-some _ tt _ (on_flags-Good i _ w₁ refl g₁)

  fulfill_late-Ends :
      {t : ℕ} (i : ℕ) (w : World M) → IsChild (w.tasks i) → Good t w → Ends t (fulfill_late t i w)
  unfolding fulfill_late
  fulfill_late-Ends {t} i w h g =
      Quiet-first _ (acquire t (task i)) _ w (acquire-Quiet t _) g λ w₁ k₁ g₁.
        complete_first i _ w₁ (subst IsChild (sym (tasks-Kept i k₁)) h) g₁
          λ w₂ lt g₂. free_chain-Ends i w₂ lt g₂

  complete_taskwait-Ends :
      {t : ℕ} (i : ℕ) (w : World M)
      → i < w.task_pool.created
      → Good t w
      → Ends t (complete_taskwait t i w)
  unfolding complete_taskwait
  complete_taskwait-Ends {t} i w lt g =
      Quiet-first _ (acquire_dependencies t (w.tasks i).dependencies) _ w
        (acquire_dependencies-Quiet t _) g
        λ w₁ k₁ g₁.
          free_chain-Ends i w₁ (subst (λ o. i < o.task_pool.created) (sym k₁.objects) lt) g₁

  -- What the callback needs of its tasks.
  abbrev pub CanSchedule : Status → Option ℕ → Option ℕ → World M → Type 0
  CanSchedule early_fulfill first second w = (i : ℕ) × (first ≡ some i)
  CanSchedule late_fulfill first second w = (i : ℕ) × (first ≡ some i) × IsChild (w.tasks i)
  CanSchedule taskwait_complete first second w =
      (i : ℕ) × (first ≡ some i) × (i < w.task_pool.created)
  CanSchedule complete first second w = CanFinish first w
  CanSchedule cancelled first second w = CanFinish first w
  CanSchedule detach first second w = Unit
  CanSchedule _ first second w = CanSuspend first second

  schedule-Ends :
      {t : ℕ} (status : Status) (first second : Option ℕ) (w : World M)
      → CanSchedule status first second w
      → Good t w
      → Ends t (schedule status t first second w)
  unfolding schedule
  schedule-Ends {t} early_fulfill first second w (i, e) g =
      Ran-deref _ first i _ w e (omp_timer-Ends _ w g λ w₁ k₁ g₁. fulfill_early-Ends i w₁ g₁)
  schedule-Ends {t} late_fulfill first second w (i, e, h) g = Ran-deref _ first i _ w e (
      omp_timer-Ends _ w g
        λ w₁ k₁ g₁. fulfill_late-Ends i w₁ (subst IsChild (sym (tasks-Kept i k₁)) h) g₁)
  schedule-Ends {t} taskwait_complete first second w (i, e, h) g = Ran-deref _ first i _ w e (
      omp_timer-Ends _ w g λ w₁ k₁ g₁.
        complete_taskwait-Ends i w₁ (subst (λ o. i < o.task_pool.created) (sym k₁.objects) h) g₁)
  schedule-Ends complete first second w h g = finish_first-Ends first second w h g
  schedule-Ends cancelled first second w h g = finish_first-Ends first second w h g
  schedule-Ends detach first second w h g = detach_first-Ends first second w g
  schedule-Ends yielded first second w h g = suspend_first-Ends first second w h g
  schedule-Ends switched first second w h g = suspend_first-Ends first second w h g

  CanSchedule-Kept :
      {t : ℕ} {w w' : World M} (status : Status) (first second : Option ℕ)
      → Kept t w w'
      → CanSchedule status first second w
      → CanSchedule status first second w'
  CanSchedule-Kept early_fulfill first second k h = h
  CanSchedule-Kept late_fulfill first second k (i, e, h) =
      (i, e, subst IsChild (sym (tasks-Kept i k)) h)
  CanSchedule-Kept taskwait_complete first second k (i, e, h) =
      (i, e, subst (λ o. i < o.task_pool.created) (sym k.objects) h)
  CanSchedule-Kept complete first second k h = λ i e. subst IsChild (sym (tasks-Kept i k)) (h i e)
  CanSchedule-Kept cancelled first second k h = λ i e. subst IsChild (sym (tasks-Kept i k)) (h i e)
  CanSchedule-Kept detach first second k h = tt
  CanSchedule-Kept yielded first second k h = h
  CanSchedule-Kept switched first second k h = h

  counted-Quiet :
      (t : ℕ) (o : Option OmptCounts) (m : Act M (Unit {0}))
      → Quiet t m
      → Quiet {M = M} t (elim o [ none ↦ done | some c ↦ m ])
  counted-Quiet t none m q = done-Quiet t
  counted-Quiet t (some c) m q = q

  pub task_schedule-Ends :
      {t : ℕ} (status : Status) (first second : Option ℕ) (w : World M)
      → CanSchedule status first second w
      → Good t w
      → Ends t (task_schedule status t first second w)
  unfolding task_schedule
  task_schedule-Ends {t} status first second w h g =
      Quiet-first _ _ _ w (counted-Quiet t (w.counts t) _ (count-Quiet t _)) g λ w₁ k₁ g₁.
        schedule-Ends status first second w₁ (CanSchedule-Kept status first second k₁ h) g₁
