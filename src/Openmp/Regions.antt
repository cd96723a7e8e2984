-- ===== src/Openmp/Regions.antt =====
-- src/ompt-critical.cpp: the callbacks for synchronisation regions, on thread `t` in task `i`.
-- `KMP_FALLTHROUGH` lets an endpoint that is begin and end at once run both parts.
use otf_cpt.Common.{ℕ, suc, ◌+◌, ◌%◌, Bool, true, false, ◌||◌, some, ltb}
use otf_cpt.Common.Int.{is_zero}
use otf_cpt.Clock.State.{state_omp}
use otf_cpt.Clock.Metric.{Metric}
use otf_cpt.Tool.World.{barrier, taskwait, taskgroup}
use otf_cpt.Tool.Action.{
  Act, ◌>>=◌, ◌>>◌, done, when, deref, fetch, modify, on_task, count, enter, exit, release, acquire,
  clear, omp_timer,
}
use otf_cpt.Openmp.Objects.{Sizes, group, new_group, give_back}

-- `ompt_sync_region_t`
pub data SyncRegion : Type 0 where
  barrier_implementation barrier_implicit barrier_explicit barrier_implicit_parallel : SyncRegion
  barrier_implicit_workshare barrier_teams barrier_plain : SyncRegion
  region_taskwait region_taskgroup region_reduction : SyncRegion

-- `ompt_scope_endpoint_t`
pub data Endpoint : Type 0 where
  scope_begin scope_end scope_beginend : Endpoint

module _ {M : Type 0} ⦃metric : Metric M⦄ where
  unfoldable pub barrier_begin : ℕ → ℕ → Act M (Unit {0})
  barrier_begin t i = do
    modify (on_task i (λ d. record d { in_barrier = true }))
    enter t state_omp
    d ← fetch (λ w. w.tasks i)
    team ← deref d.team
    release t (barrier team d.barrier_index)
    when (is_zero d.thread_num) (clear (barrier team ((d.barrier_index + 1) % 3)))

  unfoldable pub barrier_end : Bool → ℕ → ℕ → Act M (Unit {0})
  barrier_end has_parallel t i = do
    d ← fetch (λ w. w.tasks i)
    team ← deref d.team
    when (has_parallel || is_zero d.thread_num) (acquire t (barrier team d.barrier_index))
    modify (on_task i (λ d. record d { barrier_index = (d.barrier_index + 1) % 3 }))
    modify (on_task i (λ d. record d { in_barrier = false }))
    exit t d.is_running

  unfoldable pub taskwait_begin : ℕ → ℕ → Act M (Unit {0})
  taskwait_begin t i = do
    modify (on_task i (λ d. record d { in_barrier = true }))
    enter t state_omp

  unfoldable pub taskwait_end : ℕ → ℕ → Act M (Unit {0})
  taskwait_end t i = do
    d ← fetch (λ w. w.tasks i)
    when (ltb 1 d.execution) (acquire t (taskwait i))
    modify (on_task i (λ d. record d { in_barrier = false }))
    exit t d.is_running

  unfoldable pub taskgroup_begin : Sizes → ℕ → ℕ → Act M (Unit {0})
  taskgroup_begin sizes t i = do
    d ← fetch (λ w. w.tasks i)
    g ← new_group sizes t d.task_group
    modify (on_task i (λ d. record d { task_group = some g }))

  unfoldable pub taskgroup_end : ℕ → ℕ → Act M (Unit {0})
  taskgroup_end t i = omp_timer t do
    d ← fetch (λ w. w.tasks i)
    g ← deref d.task_group
    acquire t (taskgroup g)
    parent ← fetch (λ w. w.group_parent g)
    give_back group t g
    modify (on_task i (λ d. record d { task_group = parent }))

  unfoldable pub region_begin : Sizes → SyncRegion → ℕ → ℕ → Act M (Unit {0})
  region_begin sizes region_taskwait t i = taskwait_begin t i
  region_begin sizes region_taskgroup t i = taskgroup_begin sizes t i
  region_begin sizes region_reduction t i = done
  region_begin sizes _ t i = barrier_begin t i

  unfoldable pub region_end : SyncRegion → Bool → ℕ → ℕ → Act M (Unit {0})
  region_end region_taskwait has_parallel t i = taskwait_end t i
  region_end region_taskgroup has_parallel t i = taskgroup_end t i
  region_end region_reduction has_parallel t i = done
  region_end _ has_parallel t i = barrier_end has_parallel t i

  unfoldable pub count_region_begin : ℕ → Act M (Unit {0})
  count_region_begin t = count t (λ c. record c { sync_region_begin = suc c.sync_region_begin })

  unfoldable pub count_region_end : ℕ → Act M (Unit {0})
  count_region_end t = count t (λ c. record c { sync_region_end = suc c.sync_region_end })

  unfoldable pub sync_region : Sizes → SyncRegion → Endpoint → Bool → ℕ → ℕ → Act M (Unit {0})
  sync_region sizes kind scope_begin has_parallel t i = do
    count_region_begin t
    region_begin sizes kind t i
  sync_region sizes kind scope_end has_parallel t i = do
    count_region_end t
    region_end kind has_parallel t i
  sync_region sizes kind scope_beginend has_parallel t i = do
    count_region_begin t
    region_begin sizes kind t i
    count_region_end t
    region_end kind has_parallel t i

  unfoldable pub wait_begin : ℕ → ℕ → Act M (Unit {0})
  wait_begin t i = do count_region_begin t; taskwait_begin t i

  unfoldable pub wait_end : ℕ → ℕ → Act M (Unit {0})
  wait_end t i = do
    count_region_end t
    modify (on_task i (λ d. record d { in_barrier = false }))
    is_running ← fetch (λ w. (w.tasks i).is_running)
    exit t is_running

  -- Only taskgroups are timed while they wait.
  unfoldable pub sync_region_wait : SyncRegion → Endpoint → ℕ → ℕ → Act M (Unit {0})
  sync_region_wait region_taskgroup scope_begin t i = wait_begin t i
  sync_region_wait region_taskgroup scope_end t i = wait_end t i
  sync_region_wait region_taskgroup scope_beginend t i = do wait_begin t i; wait_end t i
  sync_region_wait _ endpoint t i = done
