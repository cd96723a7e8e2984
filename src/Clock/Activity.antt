-- ===== src/Clock/Activity.antt =====
-- What the clocks of a thread promise, said without clocks: the stack of activities that a sequence
-- of calls leaves, and the time that was spent in activities for which a given clock runs.
use otf_cpt.Common.{Bool, true, false, Option, none, some, List, [], ◌∷◌, ◌≡◌, if◌then◌else◌}
use otf_cpt.Common.Int.{ℤ, pos, ◌+ℤ◌, ◌-ℤ◌}
use otf_cpt.Clock.State.{ClockState, state_init, ClockType, state, same_state}
use otf_cpt.Clock.Metric.{Metric}
use otf_cpt.Clock.CpClocks.{CpClocks}
use otf_cpt.Clock.Thread.{ThreadClock, effective, enter_state, exit_state, set_state}

-- The calls that move a thread. `set_state` is only ever called with STATE_INIT.
pub data Op : Type 0 where
  enter : ClockState → Op
  exit : Bool → Op
  stop : Op

-- A call at the time `now`, with the explicit time that it is given (0 for none).
pub record Event : Type 0 where
  pub now : ℤ
  pub time : ℤ
  pub op : Op

abbrev pub at : Event → ℤ
at e = effective e.now e.time

-- The bottom of the stack is STATE_INIT.
abbrev pub IsStack : List ClockState → Type 0
IsStack [] = ⊥
IsStack (s ∷ []) = s ≡ state_init
IsStack (_ ∷ t ∷ r) = IsStack (t ∷ r)

abbrev pub top : List ClockState → ClockState
top [] = state_init
top (s ∷ _) = s

abbrev pub leave_top : List ClockState → List ClockState
leave_top [] = []
leave_top (s ∷ r) = if same_state s state_init then s ∷ r else r

abbrev pub stop_top : List ClockState → List ClockState
stop_top [] = []
stop_top (_ ∷ r) = state_init ∷ r

abbrev pub next : Op → List ClockState → List ClockState
next (enter s) stack = s ∷ stack
next (exit true) stack = leave_top stack
next (exit false) stack = stack
next stop stack = stop_top stack

abbrev pub final : List Event → List ClockState → List ClockState
final [] stack = stack
final (e ∷ es) stack = final es (next e.op stack)

abbrev pub end : ℤ → List Event → ℤ
end t [] = t
end t (e ∷ es) = end (at e) es

-- The time between two calls counts if the clock runs in the activity on top of the stack.
abbrev pub counted : Bool → ℤ → ℤ
counted true t = t
counted false t = pos 0

-- The time for which clock `c` ran, from time `t` on and to the last call.
abbrev pub spent : ClockType → ℤ → List ClockState → List Event → ℤ
spent c t stack [] = pos 0
spent c t stack (e ∷ es) =
    counted (state (top stack) c) (at e -ℤ t) +ℤ spent c (at e) (next e.op stack) es

-- The three components of a clock.
pub data Part : Type 0 where
  thread proc critical : Part

abbrev pub part {ℓ} : {R : Type ℓ} → Part → R → R → R → R
part thread a b c = a
part proc a b c = b
part critical a b c = c

module _ {M : Type 0} ⦃metric : Metric M⦄ where
  abbrev pub time_of : Part → CpClocks M → ℤ
  time_of thread c = metric.get_time c.thread
  time_of proc c = metric.get_time c.proc
  time_of critical c = metric.get_time c.critical

  -- One call on a running tool.
  unfoldable pub step : Event → ThreadClock M → Option (ThreadClock M)
  unfolding enter_state exit_state set_state
  step e tc = elim e.op [
    | enter s ↦ enter_state true e.now e.time s tc
    | exit is_running ↦ exit_state true e.now e.time is_running tc
    | stop ↦ set_state true e.now e.time state_init tc
  ]

  unfoldable pub run : List Event → ThreadClock M → Option (ThreadClock M)
  unfolding step
  run [] tc = some tc
  run (e ∷ es) tc = elim (step e tc) [ none ↦ none | some tc' ↦ run es tc' ]

-- What a clock shows at time `t`: a running clock has its start taken off.
abbrev pub reading : Bool → ℤ → ℤ → ℤ
reading true t v = v +ℤ t
reading false t v = v
