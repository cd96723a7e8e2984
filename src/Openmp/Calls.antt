-- ===== src/Openmp/Calls.antt =====
-- src/ompt-critical.cpp: the callbacks that the OpenMP runtime calls, as one step of the tool's state,
-- and what the runtime guarantees when it makes a call. The pointers that the runtime keeps for the
-- tool in an `ompt_data_t` are the numbers in a call.
mod Balance
mod Finish
mod Return
mod Session
mod Tests
use otf_cpt.Common.{ℕ, ◌<◌, Bool, true, List, Option, none, some, ◌≡◌}
use otf_cpt.Common.Int.{ℤ}
use otf_cpt.Clock.Metric.{Metric}
use otf_cpt.Openmp.Objects.{Sizes}
use otf_cpt.Openmp.Threads.{
  Command, initialize, thread_begin, parallel_begin, parallel_end, implicit_task_begin,
  implicit_task_end, control_tool,
}
use otf_cpt.Openmp.Regions.{SyncRegion, Endpoint, sync_region, sync_region_wait}
use otf_cpt.Openmp.Dependences.{dependences}
use otf_cpt.Openmp.Create.{task_create}
use otf_cpt.Openmp.Schedule.{Status, task_schedule}
use otf_cpt.Openmp.Locks.{mutex_acquire, mutex_acquired, mutex_released}
use otf_cpt.Tool.World.{World, TaskType, DependenceType, initial_world}
use otf_cpt.Tool.Action.{Act, ◌>>=◌, ◌>>◌, done}
use otf_cpt.Openmp.Returns.Valid.{Begun}
use otf_cpt.Openmp.Returns.Sync.{CanSync}
use otf_cpt.Openmp.Returns.Schedule.{CanSchedule}

-- What is called, apart from the thread.
pub data Callback : Type 0 where
  on_parallel_begin : Callback
  on_parallel_end : (team : ℕ) → Callback
  on_implicit_begin : (team : ℕ) (thread_num : ℤ) (type : TaskType) → Callback
  on_implicit_end : (team task : ℕ) (type : TaskType) → Callback
  on_sync_region :
      (kind : SyncRegion) (endpoint : Endpoint) (has_parallel : Bool) (task : ℕ) → Callback
  on_sync_region_wait : (kind : SyncRegion) (endpoint : Endpoint) (task : ℕ) → Callback
  on_task_create : (parent : ℕ) (type : TaskType) → Callback
  on_dependences : (task : ℕ) (deps : List (ℕ × DependenceType)) → Callback
  on_task_schedule : (status : Status) (first second : Option ℕ) → Callback
  on_mutex_acquire : Callback
  on_mutex_acquired : (lock : ℕ) → Callback
  on_mutex_released : (lock : ℕ) → Callback
  on_control_tool : (command : Command) → Callback

module _ {M : Type 0} ⦃metric : Metric M⦄ where
  -- What holds of the state when the runtime makes the call: the objects that it passes were made by
  -- the tool, a task at a barrier has a team, one that ends a taskgroup is in one, one that completes
  -- has a team and a parent, and a lock that is released was acquired.
  abbrev pub Allowed : Callback → World M → Type 0
  Allowed (on_parallel_end x) w = x < w.team_pool.created
  Allowed (on_implicit_end x i type) w = (i < w.task_pool.created) × (x < w.team_pool.created)
  Allowed (on_sync_region kind endpoint has_parallel i) w = CanSync kind endpoint i w
  Allowed (on_task_create parent type) w = parent < w.task_pool.created
  Allowed (on_dependences i deps) w = (p : ℕ) × ((w.tasks i).parent ≡ some p)
  Allowed (on_task_schedule status first second) w = CanSchedule status first second w
  Allowed (on_mutex_acquired l) w = ¬ (w.lock_held l ≡ some true)
  Allowed (on_mutex_released l) w = (held : Bool) × (w.lock_held l ≡ some held)
  Allowed _ w = Unit

  module _ (sizes : Sizes) (runtime : ℤ) where
    -- The call on thread `t`, without its result.
    unfoldable pub run_callback : ℕ → Callback → Act M (Unit {0})
    run_callback t on_parallel_begin = do x ← parallel_begin sizes t; done
    run_callback t (on_parallel_end x) = parallel_end t x
    run_callback t (on_implicit_begin x num type) = do
      both ← implicit_task_begin sizes t x num type
      done
    run_callback t (on_implicit_end x i type) = implicit_task_end t x i type
    run_callback t (on_sync_region kind endpoint has_parallel i) =
        sync_region sizes kind endpoint has_parallel t i
    run_callback t (on_sync_region_wait kind endpoint i) = sync_region_wait kind endpoint t i
    run_callback t (on_task_create parent type) = do i ← task_create sizes t parent type; done
    run_callback t (on_dependences i deps) = dependences sizes t i deps
    run_callback t (on_task_schedule status first second) = task_schedule status t first second
    run_callback t on_mutex_acquire = mutex_acquire t
    run_callback t (on_mutex_acquired l) = mutex_acquired t l
    run_callback t (on_mutex_released l) = mutex_released t l
    run_callback t (on_control_tool command) = do r ← control_tool runtime t command; done

    -- The states that the calls of the runtime lead to, in any order and on any threads, from where
    -- `ompt_tsan_initialize` has run on one. A thread begins once.
    pub data Reach (stopped dump : Bool) (times : ℕ → ℤ) : World M → Type 0 where
      start :
          {w : World M} (t : ℕ)
          → initialize t (initial_world stopped dump times) ≡ some (tt, w)
          → Reach stopped dump times w
      begin :
          {w w' : World M} (t : ℕ) (is_initial : Bool)
          → Reach stopped dump times w
          → w.counts t ≡ none
          → thread_begin t is_initial w ≡ some (tt, w')
          → Reach stopped dump times w'
      call :
          {w w' : World M} (t : ℕ) (c : Callback)
          → Reach stopped dump times w
          → Begun t w
          → Allowed c w
          → run_callback t c w ≡ some (tt, w')
          → Reach stopped dump times w'
