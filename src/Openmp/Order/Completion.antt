-- ===== src/Openmp/Order/Completion.antt =====
-- `completeTask` of src/ompt-critical.cpp and what waits for a task: a barrier of its team, a taskwait of its
-- parent, and the end of its taskgroup.
use otf_cpt.Common.{ℕ, ◌≡◌, subst, Option, some, none, Bool, true, false, not, some-injective}
use otf_cpt.Common.Int.{ℤ}
use otf_cpt.Clock.State.{ClockType}
use otf_cpt.Clock.Metric.{Metric}
use otf_cpt.Clock.Activity.{Part}
use otf_cpt.Clock.Barrier.{IsShared}
use otf_cpt.Openmp.Order.{Covers, Ready, Has, Moves}
use otf_cpt.Openmp.Order.Flows.{
  Flows, Leaves, release-Flows, release-Leaves, acquire-Flows, acquire-Gets, done-Flows, Flows-bind,
  Leaves-first, Leaves-later,
}
use otf_cpt.Openmp.Order.Dependences.{releases-Flows}
use otf_cpt.Openmp.Returns.Complete.{IsChild}
use otf_cpt.Openmp.Returns.Ran.{Ran, Ran-imp, Ran-bind, Ran-deref}
use otf_cpt.Openmp.Schedule.{complete_task, release_completed, release_included}
use otf_cpt.Tool.World.{World, TaskData, SyncRef, barrier, taskwait, taskgroup}
use otf_cpt.Tool.Action.{Act, ◌>>=◌, ◌>>◌, deref, done, when, release, acquire}

-- The clocks from which those acquire that wait for the task.
pub data IsAwaited (d : TaskData) : SyncRef → Type 0 where
  by_team : {x : ℕ} → d.team ≡ some x → IsAwaited d (barrier x d.barrier_index)
  by_parent : {q : ℕ} → d.parent ≡ some q → IsAwaited d (taskwait q)
  by_group : {g : ℕ} → d.task_group ≡ some g → IsAwaited d (taskgroup g)

module _ {M : Type 0} ⦃metric : Metric M⦄ (p : Part) (i : ClockType) (shared : IsShared p i)
    (b : ℤ) where
  deref-Flows :
      {A : Type 0} {t : ℕ} (o : Option A) (a : A) (f : A → Act M (Unit {0}))
      → o ≡ some a
      → Flows p i shared b t (f a)
      → Flows p i shared b t (deref o >>= f)
  deref-Flows o a f e q w on h = Ran-deref _ o a f w e (q w on h)

  deref-Leaves :
      {A : Type 0} {t : ℕ} {r : SyncRef} (o : Option A) (a : A) (f : A → Act M (Unit {0}))
      → o ≡ some a
      → Leaves p i shared b t r (f a)
      → Leaves p i shared b t r (deref o >>= f)
  deref-Leaves o a f e q w on h k = Ran-deref _ o a f w e (q w on h k)

  when-Flows :
      {t : ℕ} (c : Bool) (m : Act M (Unit {0}))
      → Flows p i shared b t m
      → Flows p i shared b t (when c m)
  when-Flows true m f = f
  when-Flows {t} false m f = done-Flows p i shared b t

  group-Flows :
      (t : ℕ) (o : Option ℕ)
      → Flows {M = M} p i shared b t (elim o [ none ↦ done | some g ↦ release t (taskgroup g) ])
  group-Flows t none = done-Flows p i shared b t
  group-Flows t (some g) = release-Flows p i shared b t _

  group-Leaves :
      (t g : ℕ) (o : Option ℕ)
      → o ≡ some g
      → Leaves {M = M} p i shared b t
          (taskgroup g)
          (elim o [ none ↦ done | some g ↦ release t (taskgroup g) ])
  group-Leaves t g none e = absurd (let no : ⊥ = cc in no)
  group-Leaves t g (some x) e =
      subst (λ y. Leaves {M = M} p i shared b t (taskgroup y) (release t (taskgroup x)))
        (some-injective _ _ e) (release-Leaves p i shared b t (taskgroup x))

  completed-Leaves :
      (t : ℕ) (d : TaskData) (r : SyncRef)
      → IsChild d
      → IsAwaited d r
      → Leaves {M = M} p i shared b t r (release_completed t d)
  unfolding release_completed
  completed-Leaves t d r h (by_team {x} e) = deref-Leaves d.team x _ e (
      Leaves-first p i shared b _ _ (release-Leaves p i shared b t _) (
        deref-Flows d.parent h.parent.0 _ h.parent.1 (
          Flows-bind p i shared b _ _ (release-Flows p i shared b t _)
            (group-Flows t d.task_group))))
  completed-Leaves t d r h (by_parent {q} e) = deref-Leaves d.team h.team.0 _ h.team.1 (
      Leaves-later p i shared b _ _ (release-Flows p i shared b t _) (
        deref-Leaves d.parent q _ e (
          Leaves-first p i shared b _ _ (release-Leaves p i shared b t _)
            (group-Flows t d.task_group))))
  completed-Leaves t d r h (by_group {g} e) = deref-Leaves d.team h.team.0 _ h.team.1 (
      Leaves-later p i shared b _ _ (release-Flows p i shared b t _) (
        deref-Leaves d.parent h.parent.0 _ h.parent.1 (
          Leaves-later p i shared b _ _ (release-Flows p i shared b t _)
            (group-Leaves t g d.task_group e))))

  included-Flows :
      (t : ℕ) (d : TaskData) → IsChild d → Flows {M = M} p i shared b t (release_included t d)
  unfolding release_included
  included-Flows t d h =
      deref-Flows d.parent h.parent.0 _ h.parent.1 (release-Flows p i shared b t _)

  when-Leaves :
      {t : ℕ} {r : SyncRef} (c : Bool) (m : Act M (Unit {0}))
      → c ≡ false
      → Leaves p i shared b t r m
      → Leaves p i shared b t r (when (not c) m)
  when-Leaves true m e f = absurd (let no : ⊥ = cc in no)
  when-Leaves false m e f = f

  complete_task-Leaves :
      (t j : ℕ) (r : SyncRef) (w : World M)
      → IsChild (w.tasks j)
      → (w.tasks j).task_type.undeferred ≡ false
      → IsAwaited (w.tasks j) r
      → w.running ≡ true
      → Ready p i shared b t w
      → Has p i shared b t w
      → Ran
          (λ u w'. Moves p i shared b w w' × Covers p i shared b (w'.syncs r))
          (complete_task t j w)
  unfolding complete_task
  complete_task-Leaves t j r w h deferred await =
      let d = w.tasks j in
      Leaves-later p i shared b _ _
        (when-Flows d.task_type.fulfilled _ (acquire-Flows p i shared b t _))
        (Leaves-first p i shared b _ _
          (when-Leaves d.task_type.undeferred _ deferred (completed-Leaves t d r h await))
          (Flows-bind p i shared b _ _ (when-Flows d.task_type.undeferred _ (included-Flows t d h))
            (releases-Flows p i shared b t d.dependencies)))
        w

  -- Thread `t` completes a task that is not included, and then thread `u` acquires from a clock on
  -- which the task is awaited, that of the team's barrier, of a taskwait of the parent or of the task's
  -- taskgroup. Both return, and each reading of a clock that is handed over, the process-local and
  -- the one on the critical path, is on `u` at least what it was on `t`.
  pub complete_task-Ran :
      (t u j : ℕ) (r : SyncRef) (w : World M)
      → IsChild (w.tasks j)
      → (w.tasks j).task_type.undeferred ≡ false
      → IsAwaited (w.tasks j) r
      → w.running ≡ true
      → Ready p i shared b t w
      → Ready p i shared b u w
      → Has p i shared b t w
      → Ran (λ x w'. Has p i shared b u w') ((complete_task t j >> acquire u r) w)
  complete_task-Ran t u j r w h deferred await on ht hu q =
      Ran-bind _ _ (complete_task t j) (λ x. acquire u r) w
        (complete_task-Leaves t j r w h deferred await on ht q)
        λ x w₁ (k, held).
          Ran-imp _ _ (λ x w₂ m. m.1)
            (acquire-Gets p i shared b u r w₁ k.running (k.ready u hu) held)
