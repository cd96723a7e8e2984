-- ===== src/Tool/World.antt =====
-- The state that the callbacks of src/ompt-critical.cpp and the tool control of
-- src/critical-core.cpp work on, for one process. A thread, a task, a team, a taskgroup and the data
-- of a dependence are numbers, and a null pointer is `none`. A synchronisation clock is a member of
-- such an object: it stands under the object's number in `syncs`. So the pools, which construct an
-- object once and reset other members than the clocks, leave it as it is.
use otf_cpt.Common.{ℕ, Bool, false, Option, none, List, []}
use otf_cpt.Common.Int.{ℤ, pos, negsuc}
use otf_cpt.Clock.Metric.{Metric}
use otf_cpt.Clock.Thread.{ThreadClock}
use otf_cpt.Clock.Sync.{SyncClock, new_sync}
use otf_cpt.Openmp.Pool.{Pools, new_pools}

-- The flags in a task's `TaskType`.
pub record TaskType : Type 0 where
  pub initial : Bool
  pub explicit : Bool
  pub target : Bool
  pub undeferred : Bool
  pub untied : Bool
  pub fulfilled : Bool

pub data DependenceType : Type 0 where
  dep_in dep_out dep_inout dep_mutexinoutset dep_source dep_sink dep_inoutset : DependenceType
  dep_out_all_memory dep_inout_all_memory : DependenceType

-- `depend` stands for the three clocks of the dependence's data.
pub record TaskDependency : Type 0 where
  pub depend : ℕ
  pub type : DependenceType

pub record TaskData : Type 0 where
  pub is_running : Bool
  pub in_barrier : Bool
  pub task_type : TaskType
  pub thread_num : ℤ
  pub execution : ℕ
  pub barrier_index : ℕ
  pub ref_count : ℤ
  pub parent : Option ℕ
  pub implicit_task : Option ℕ
  pub team : Option ℕ
  pub task_group : Option ℕ
  pub dependencies : List TaskDependency
  pub dependency_map : List (ℕ × ℕ)

pub data SyncRef : Type 0 where
  task taskwait : ℕ → SyncRef
  barrier : (team index : ℕ) → SyncRef
  taskgroup : ℕ → SyncRef
  in_clock out_clock inoutset_clock : ℕ → SyncRef
  lock_clock : ℕ → SyncRef

pub SyncRef-discrete : Discrete SyncRef
SyncRef-discrete = hlevel native.Mathlib.Decide.ℕ_discrete

pub record OmptCounts : Type 0 where
  pub task_create : ℕ
  pub task_schedule : ℕ
  pub impl_task_begin : ℕ
  pub impl_task_end : ℕ
  pub sync_region_begin : ℕ
  pub sync_region_end : ℕ
  pub mutex_acquire : ℕ

-- What `finishMeasurement` reads from the clocks of the process: `uc_avg` and `uc_max` at 0, 2 (sums
-- and maxima over the threads) and at 1, 3, 4 (the calling thread), and the critical paths, which the
-- code reads later, from the clocks of the calling thread as they are then still. `total_threads`
-- is the value that the variable has before a reduction.
pub record Summary : Type 0 where
  pub runtime : ℤ
  pub num_threads : ℕ
  pub total_threads : ℕ
  pub useful_sum : ℤ
  pub useful_max : ℤ
  pub oomp_sum : ℤ
  pub oomp_max : ℤ
  pub ompi_proc : ℤ
  pub useful_proc : ℤ
  pub oomp_proc : ℤ
  pub ompi_critical : ℤ
  pub useful_critical : ℤ
  pub oomp_critical : ℤ

-- Tasks, and the parents of taskgroups, with the pools of all objects.
pub record Objects : Type 0 where
  pub tasks : ℕ → TaskData
  pub group_parent : ℕ → Option ℕ
  pub task_pool : Pools
  pub team_pool : Pools
  pub group_pool : Pools
  pub depend_pool : Pools

-- `times` are the values that `getTime()` returns, one after the other.
pub record World (M : Type 0) : Type 0 where
  pub running : Bool
  pub stopped : Bool
  pub dump_on_stop : Bool
  pub finished : Bool
  pub start_programm_time : ℤ
  pub end_programm_time : ℤ
  pub times : ℕ → ℤ
  pub calls : ℕ
  pub next_id : ℕ
  pub threads : ℕ → Option (ThreadClock M)
  pub thread_clocks : List ℕ
  pub thread_counts : List ℕ
  pub counts : ℕ → Option OmptCounts
  pub summary : Option Summary
  pub syncs : SyncRef → SyncClock M
  pub lock_held : ℕ → Option Bool
  pub objects : Objects
  pub open objects use *

abbrev pub no_type : TaskType
no_type = record {
  initial = false;
  explicit = false;
  target = false;
  undeferred = false;
  untied = false;
  fulfilled = false;
}

-- `TaskData::Reset`, and what the constructor leaves.
unfoldable pub reset_task : TaskData
reset_task = record {
  is_running = false;
  in_barrier = false;
  task_type = no_type;
  thread_num = negsuc 0;
  execution = 0;
  barrier_index = 0;
  ref_count = pos 1;
  parent = none;
  implicit_task = none;
  team = none;
  task_group = none;
  dependencies = [];
  dependency_map = [];
}

unfoldable pub new_counts : OmptCounts
new_counts = record {
  task_create = 0;
  task_schedule = 0;
  impl_task_begin = 0;
  impl_task_end = 0;
  sync_region_begin = 0;
  sync_region_end = 0;
  mutex_acquire = 0;
}

-- The process before `ompt_tsan_initialize`.
unfoldable pub initial_world : {M : Type 0} ⦃metric : Metric M⦄ → Bool → Bool → (ℕ → ℤ) → World M
unfolding new_sync reset_task new_pools
initial_world stopped dump_on_stop times = record {
  running = false;
  stopped = stopped;
  dump_on_stop = dump_on_stop;
  finished = false;
  start_programm_time = pos 0;
  end_programm_time = pos 0;
  times = times;
  calls = 0;
  next_id = 0;
  threads = λ t. none;
  thread_clocks = [];
  thread_counts = [];
  counts = λ t. none;
  summary = none;
  syncs = λ r. new_sync;
  lock_held = λ l. none;
  objects = record {
    tasks = λ i. reset_task;
    group_parent = λ g. none;
    task_pool = new_pools;
    team_pool = new_pools;
    group_pool = new_pools;
    depend_pool = new_pools;
  };
}
