-- ===== src/Openmp/Returns/Complete.antt =====
-- `completeTask` and `startTask` of src/ompt-critical.cpp.
use otf_cpt.Common.{ℕ, suc, ◌==◌, ◌≡◌, ◌<◌, refl, sym, subst, Option, none, some, not}
use otf_cpt.Clock.State.{state_useful}
use otf_cpt.Clock.Metric.{Metric}
use otf_cpt.Openmp.Schedule.{
  release_completed, release_included, complete_task, begin_task, resume_untied, resume_task,
  start_task,
}
use otf_cpt.Tool.World.{World, TaskData, taskgroup}
use otf_cpt.Tool.Action.{Act, ◌>>=◌, done, deref, when, release}
use otf_cpt.Openmp.Returns.Ran.{Ran, Ran-some, Ran-bind, Ran-deref}
use otf_cpt.Openmp.Returns.Primitives.{Kept, Quiet, Quiet-bind, enter-Quiet, exit-Quiet}
use otf_cpt.Openmp.Returns.Clocks.{release-Quiet, acquire-Quiet, when-Quiet, done-Quiet}
use otf_cpt.Openmp.Returns.Good.{
  Good, Ends, Good-Kept, when-Ends, Quiet-last, on_flags-Good, then-Good,
}
use otf_cpt.Openmp.Returns.Dependences.{release_dependencies-Quiet, acquire_dependencies-Quiet}

-- What a task that completes has, since another task made it.
pub record IsChild (d : TaskData) : Type 0 where
  pub team : (x : ℕ) × (d.team ≡ some x)
  pub parent : (p : ℕ) × (d.parent ≡ some p)

module _ {M : Type 0} ⦃metric : Metric M⦄ where
  deref-Quiet :
      {A : Type 0} {t : ℕ} (o : Option A) (a : A) (f : A → Act M (Unit {0}))
      → o ≡ some a
      → Quiet t (f a)
      → Quiet t (deref o >>= f)
  deref-Quiet o a f e q w v b = Ran-deref _ o a f w e (q w v b)

  group-Quiet :
      (t : ℕ) (o : Option ℕ)
      → Quiet {M = M} t (elim o [ none ↦ done | some g ↦ release t (taskgroup g) ])
  group-Quiet t none = done-Quiet t
  group-Quiet t (some g) = release-Quiet t _

  release_completed-Quiet :
      (t : ℕ) (d : TaskData) → IsChild d → Quiet {M = M} t (release_completed t d)
  unfolding release_completed
  release_completed-Quiet t d h = deref-Quiet d.team h.team.0 _ h.team.1 (
      Quiet-bind _ _ (release-Quiet t _) (
        deref-Quiet d.parent h.parent.0 _ h.parent.1
          (Quiet-bind _ _ (release-Quiet t _) (group-Quiet t d.task_group))))

  release_included-Quiet :
      (t : ℕ) (d : TaskData) → IsChild d → Quiet {M = M} t (release_included t d)
  unfolding release_included
  release_included-Quiet t d h = deref-Quiet d.parent h.parent.0 _ h.parent.1 (release-Quiet t _)

  complete_task-Kept :
      {t : ℕ} (i : ℕ) (w : World M)
      → IsChild (w.tasks i)
      → Good t w
      → Ran (λ u w'. Kept t w w') (complete_task t i w)
  unfolding complete_task
  complete_task-Kept {t} i w h g =
      let d = w.tasks i in
      Quiet-bind _ _ (when-Quiet d.task_type.fulfilled _ (acquire-Quiet t _))
        (Quiet-bind _ _ (when-Quiet (not d.task_type.undeferred) _ (release_completed-Quiet t d h))
          (Quiet-bind _ _ (when-Quiet d.task_type.undeferred _ (release_included-Quiet t d h))
            (release_dependencies-Quiet t d.dependencies)))
        w g.valid.timed g.begun

  -- A block that begins with the completion of a task.
  pub complete_first :
      {A : Type 0} {t : ℕ} (i : ℕ) (f : Unit {0} → Act M A) (w : World M)
      → IsChild (w.tasks i)
      → Good t w
      → ((w' : World M) → i < w'.task_pool.created → Good t w' → Ends t (f tt w'))
      → Ends t ((complete_task t i >>= f) w)
  complete_first {t = t} i f w h g rest =
      Ran-bind _ _ (complete_task t i) f w (complete_task-Kept i w h g) λ u w' k.
        rest w'
          (subst (λ o. i < o.task_pool.created) (sym k.objects)
            ((g.valid.linked.tasks i).parent h.parent.0 h.parent.1).0)
          (Good-Kept g k)

  begin_task-Ends : {t : ℕ} (i : ℕ) (w : World M) → Good t w → Ends t (begin_task t i w)
  unfolding begin_task
  begin_task-Ends {t} i w g =
      let g₁ =
        on_flags-Good i (record (w.tasks i) { execution = suc (w.tasks i).execution }) w refl g in
      Quiet-last _ _
        (Quiet-bind _ _ (acquire_dependencies-Quiet t _)
          (Quiet-bind _ _ (acquire-Quiet t _) (enter-Quiet t state_useful)))
        g₁

  resume_task-Quiet : (t i : ℕ) (d : TaskData) → Quiet {M = M} t (resume_task t i d)
  unfolding resume_task resume_untied
  resume_task-Quiet t i d =
      Quiet-bind _ _
        (when-Quiet d.task_type.untied _ (
          Quiet-bind _ _ (when-Quiet d.in_barrier _ (exit-Quiet t _)) (
            when-Quiet (not d.in_barrier) _
              (Quiet-bind _ _ (acquire-Quiet t _) (enter-Quiet t state_useful)))))
        (when-Quiet (not d.task_type.untied) _ (exit-Quiet t _))

  pub start_task-Ends : {t : ℕ} (o : Option ℕ) (w : World M) → Good t w → Ends t (start_task t o w)
  unfolding start_task
  start_task-Ends {t} none w g = Ran-some _ tt w g
  start_task-Ends {t} (some i) w g =
      let new = (w.tasks i).execution == 0 in
      then-Good (when new (begin_task t i)) _ w (when-Ends new _ w g (begin_task-Ends i w g))
        λ u w₁ g₁. Quiet-last _ w₁ (when-Quiet (not new) _ (resume_task-Quiet t i (w.tasks i))) g₁
