-- ===== src/Openmp/Locks.antt =====
-- src/ompt-critical.cpp: the callbacks for the application's locks. The tool keeps, for each lock, a
-- mutex and a synchronisation clock; `LocksMutex` makes the look-up one step. A callback that waits
-- for a mutex is the one that returns once it is free: while it is held, the result is `none`.
use otf_cpt.Common.{ℕ, suc, true, false, none, some, update}
use otf_cpt.Clock.State.{state_omp}
use otf_cpt.Clock.Metric.{Metric}
use otf_cpt.Tool.World.{lock_clock}
use otf_cpt.Tool.Action.{
  Act, ◌>>=◌, ◌>>◌, done, deref, fetch, modify, count, enter, exit, release, acquire, omp_timer,
}

module _ {M : Type 0} ⦃metric : Metric M⦄ where
  unfoldable pub mutex_acquire : ℕ → Act M (Unit {0})
  mutex_acquire t = do
    count t (λ c. record c { mutex_acquire = suc c.mutex_acquire })
    enter t state_omp

  -- `Locks.insert`, with a mutex that is free where there is none yet.
  unfoldable pub need_lock : ℕ → Act M (Unit {0})
  need_lock l w = elim (w.lock_held l) [
    | some held ↦ done w
    | none ↦ modify (λ w. record w { lock_held = update w.lock_held l (some false) }) w
  ]

  unfoldable pub lock_mutex : ℕ → Act M (Unit {0})
  lock_mutex l w = elim (w.lock_held l) [
    | none ↦ none
    | some true ↦ none
    | some false ↦ modify (λ w. record w { lock_held = update w.lock_held l (some true) }) w
  ]

  unfoldable pub mutex_acquired : ℕ → ℕ → Act M (Unit {0})
  mutex_acquired t l = do need_lock l; lock_mutex l; acquire t (lock_clock l); exit t true

  unfoldable pub unlock : ℕ → ℕ → Act M (Unit {0})
  unlock t l = do
    held ← fetch (λ w. w.lock_held l)
    deref held
    release t (lock_clock l)
    modify (λ w. record w { lock_held = update w.lock_held l (some false) })

  unfoldable pub mutex_released : ℕ → ℕ → Act M (Unit {0})
  mutex_released t l = omp_timer t (unlock t l)
