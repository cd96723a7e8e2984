-- ===== src/Clock/State.antt =====
-- include/criticalPath.h: the activities of a thread, the four clocks, and the table that says
-- which clocks run in which activity. STATE_UNINIT and STATE_LAST (CLOCK_LAST) name no row
-- (column) of the table and no code stores them, so they have no constructor.
use otf_cpt.Common.{Bool, true, false}

pub data ClockState : Type 0 where
  state_init state_none state_useful state_mpi state_omp state_gpu : ClockState

pub data ClockType : Type 0 where
  clock_useful clock_ompi clock_oomp clock_ogpu : ClockType

pub ClockState-discrete : Discrete ClockState
ClockState-discrete = hlevel

-- `State[s][c]`: clock `c` runs while the thread is in state `s`.
unfoldable pub state : ClockState → ClockType → Bool
state state_init _ = false
state state_none clock_useful = false
state state_none clock_ompi = true
state state_none clock_oomp = true
state state_none clock_ogpu = true
state state_useful _ = true
state state_mpi clock_useful = false
state state_mpi clock_ompi = false
state state_mpi clock_oomp = true
state state_mpi clock_ogpu = true
state state_omp clock_useful = false
state state_omp clock_ompi = true
state state_omp clock_oomp = false
state state_omp clock_ogpu = true
state state_gpu clock_useful = false
state state_gpu clock_ompi = true
state state_gpu clock_oomp = true
state state_gpu clock_ogpu = false

-- `old_cs == new_cs`
unfoldable pub same_state : ClockState → ClockState → Bool
same_state state_init state_init = true
same_state state_none state_none = true
same_state state_useful state_useful = true
same_state state_mpi state_mpi = true
same_state state_omp state_omp = true
same_state state_gpu state_gpu = true
same_state _ _ = false
