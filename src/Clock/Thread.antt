-- ===== src/Clock/Thread.antt =====
-- include/criticalPath.h: `threadClock`, the clocks of one thread with the stack of its activities.
-- The stack is a list, its back first; the source location beside each state is only printed and
-- is left out. `none` is a read before the begin of the vector, which C++ leaves undefined.
-- `now` is what `getTime()` returns during the call, and `running` is `analysis_flags->running`.
-- A failing DCHECK reports and goes on (`continue_on_error` is the default), so it has no part here.
use otf_cpt.Common.{
  ℕ, Bool, true, false, not, ◌&&◌, ◌||◌, Option, none, some, List, [], ◌∷◌, if◌then◌else◌,
}
use otf_cpt.Common.Int.{ℤ, pos, neg, is_zero}
use otf_cpt.Clock.State.{ClockState, state_init, clock_useful, state, same_state}
use otf_cpt.Clock.Metric.{Metric}
use otf_cpt.Clock.CpClocks.{CpClocks, Clocks, reset, add_all}

pub record ThreadClock (M : Type 0) : Type 0 where
  pub thread_id : ℕ
  pub openmp_thread : Bool
  pub clocks : Clocks M
  pub stack : List ClockState

-- `getBack`
abbrev pub get_state : List ClockState → Option ClockState
get_state [] = none
get_state (s ∷ _) = some s

-- `pop_back`
abbrev pub pop_back : List ClockState → List ClockState
pop_back [] = []
pop_back (_ ∷ r) = r

-- `back() = cs`
abbrev pub set_back : ClockState → List ClockState → Option (List ClockState)
set_back cs [] = none
set_back cs (_ ∷ r) = some (cs ∷ r)

-- `if (time == 0) time = getTime();`
abbrev pub effective : ℤ → ℤ → ℤ
effective now time = if is_zero time then now else time

module _ {M : Type 0} ⦃metric : Metric M⦄ where
  -- The body of the loop of `SwitchState`: a clock that starts takes the time off, and one that
  -- stops adds it.
  unfoldable pub switch_clock : Bool → Bool → ℤ → CpClocks M → CpClocks M
  unfolding add_all
  switch_clock false true time c = add_all (neg time) c
  switch_clock true false time c = add_all time c
  switch_clock false false time c = c
  switch_clock true true time c = c

  unfoldable pub switch_state : ℤ → ClockState → ClockState → ℤ → Clocks M → Clocks M
  unfolding switch_clock same_state state
  switch_state now old_cs new_cs time clocks =
      if same_state old_cs new_cs
      then clocks
      else (λ i. switch_clock (state old_cs i) (state new_cs i) (effective now time) (clocks i))

  -- `threadClock(threadid, _useful_computation, _openmp_thread)`
  unfoldable pub new_clock : ℕ → ℤ → Bool → ThreadClock M
  unfolding reset
  new_clock threadid useful openmp = record {
    thread_id = threadid;
    openmp_thread = openmp;
    clocks = elim [
      | clock_useful ↦ record (reset (pos 0)) { critical = metric.reset useful }
      | _ ↦ reset (pos 0)
    ];
    stack = state_init ∷ [];
  }

  unfoldable pub enter_state : Bool → ℤ → ℤ → ClockState → ThreadClock M → Option (ThreadClock M)
  unfolding switch_state
  enter_state running now time cs tc = if not running then some tc else elim (get_state tc.stack) [
    | none ↦ none
    | some old ↦
        some (record tc { clocks = switch_state now old cs time tc.clocks; stack = cs ∷ tc.stack })
  ]

  -- The last two lines of `exitState`: the state below is entered.
  unfoldable pub leave : ℤ → ℤ → ClockState → ThreadClock M → Option (ThreadClock M)
  unfolding switch_state
  leave now time old tc = elim (get_state (pop_back tc.stack)) [
    | none ↦ none
    | some new ↦
        some (record tc {
          clocks = switch_state now old new time tc.clocks;
          stack = pop_back tc.stack;
        })
  ]

  unfoldable pub exit_state : Bool → ℤ → ℤ → Bool → ThreadClock M → Option (ThreadClock M)
  unfolding leave
  exit_state running now time is_running tc =
      if not running || not is_running then some tc else elim (get_state tc.stack) [
        | none ↦ none
        | some old ↦ if same_state old state_init then some tc else leave now time old tc
      ]

  unfoldable pub set_state : Bool → ℤ → ℤ → ClockState → ThreadClock M → Option (ThreadClock M)
  unfolding switch_state
  set_state running now time cs tc =
      if not running && not (same_state cs state_init) then some tc else elim (get_state tc.stack) [
        | none ↦ none
        | some old ↦ elim (set_back cs tc.stack) [
          | none ↦ none
          | some stack ↦
              some (record tc { clocks = switch_state now old cs time tc.clocks; stack = stack })
        ]
      ]

  unfoldable pub reset_state : ThreadClock M → ThreadClock M
  reset_state tc = record tc { clocks = λ i. reset (pos 0); stack = state_init ∷ [] }

  unfoldable pub compare_state : ClockState → ThreadClock M → Option Bool
  compare_state cs tc = elim (get_state tc.stack) [ none ↦ none | some s ↦ some (same_state s cs) ]
