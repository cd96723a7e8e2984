-- ===== src/Clock/Tests.antt =====
-- Runs of the clocks at concrete times, and the theorems at such inputs.
use otf_cpt.Common.{ℕ, true, some, List, [], ◌∷◌, ◌≡◌, refl, ◌↔◌, All, update}
use mathlib.Core.Option
use otf_cpt.Common.Int.{ℤ, pos, negsuc, ◌+ℤ◌, neg, ◌≤ℤ◌}
use otf_cpt.Clock.State.{
  state_init, state_useful, state_mpi, state_omp, clock_useful, clock_ompi, clock_oomp, same_state,
}
use otf_cpt.Clock.Metric.Time.{TimeMetric, time_metric}
use otf_cpt.Clock.Metric.Time
use otf_cpt.Clock.Metric.Dependent.{DependentMetric, dependent_metric}
use otf_cpt.Clock.CpClocks.{reset}
use otf_cpt.Clock.Thread.{ThreadClock, switch_state, new_clock}
use otf_cpt.Clock.Sync.{SyncClock, new_sync, happens_before, happens_after, release_in, check_arc}
use otf_cpt.Clock.Message.{IpcData, mpi_happens_after}
use otf_cpt.Clock.Activity.{
  Op, enter, exit, stop, Event, thread, proc, critical, time_of, step, run,
}
use otf_cpt.Clock.Accounting.{Accounts, run-Accounts}
use otf_cpt.Clock.Ordered.{IsOrdered}
use otf_cpt.Clock.System.{
  System, move, release, acquire, receive, acquired, Reach, initial, Reach-IsOrdered,
}
use otf_cpt.Clock.System.{here as nothing, then as and_then, Returns, Reach-Returns}
use otf_cpt.Clock.Barrier.{Joined, barrier-Joined}
use otf_cpt.Clock.Fresh.{happens_after-fresh}
use otf_cpt.Clock.Atomic.{loaded, MaxStep, AddStep, this, later, Run, here, then, start, finish}
use otf_cpt.Clock.Atomic.Max.{update_maximum_lem, update_maximum_can_finish}
use otf_cpt.Clock.Atomic.Add.{sum, atomic_add_lem}

abbrev fresh : ThreadClock TimeMetric
fresh = new_clock 0 (pos 0) true

abbrev at_time : ℕ → Op → Event
at_time t op = record { now = pos t; time = pos 0; op = op }

-- Useful work from 10 on, MPI from 30 to 45, and a stop at 50.
abbrev session : List Event
session =
    at_time 10 (enter state_useful)
    ∷ at_time 30 (enter state_mpi)
    ∷ at_time 45 (exit true)
    ∷ at_time 50 stop
    ∷ []

-- The useful clock and the one outside MPI have counted 25, the one outside OpenMP 40.
session_counts :
    Option.map {B = ℤ × ℤ × ℤ}
      (λ tc. (
        time_of {M = TimeMetric} critical (tc.clocks clock_useful),
        time_of {M = TimeMetric} thread (tc.clocks clock_ompi),
        time_of {M = TimeMetric} proc (tc.clocks clock_oomp),
      ))
      (run session fresh)
    ≡ some (pos 25, pos 25, pos 40)
unfolding run new_clock Time.time_metric ◌+ℤ◌ neg
session_counts = refl

run-Accounts_example : (tc : ThreadClock TimeMetric) × Accounts session fresh tc
unfolding new_clock
run-Accounts_example = run-Accounts session fresh refl

-- Thread 0 starts useful work at 10, and takes up a message.
abbrev arrived : IpcData
arrived = record { useful = pos 7; ompi = pos 8; oomp = pos 9 }

abbrev started : System TimeMetric
started = record initial {
  threads = update initial.threads 0 (record fresh {
    clocks = switch_state (pos 10) state_init state_useful (pos 0) fresh.clocks;
    stack = state_useful ∷ state_init ∷ [];
  });
}

abbrev informed : System TimeMetric
informed = record started {
  threads = update started.threads 0 (mpi_happens_after true arrived (started.threads 0));
}

informed-Reach : Reach (initial {M = TimeMetric}) informed
unfolding initial step new_clock
informed-Reach =
    and_then (and_then nothing (move 0 (at_time 10 (enter state_useful)) _ refl refl))
      (receive 0 arrived refl)

-- Thread 0 releases into clock 5 in the build with the lock, and thread 1 acquires from it.
abbrev first : System DependentMetric
first = initial

abbrev working : System DependentMetric
working = record first {
  threads = update first.threads 0 (record (first.threads 0) {
    clocks = switch_state (pos 10) state_init state_useful (pos 0) (first.threads 0).clocks;
    stack = state_useful ∷ state_init ∷ [];
  });
}

abbrev handed : System DependentMetric
handed = record working {
  syncs = update working.syncs 5 (release_in state_useful (working.threads 0) (working.syncs 5));
}

abbrev taken : System DependentMetric
taken = record {
  threads = update handed.threads 1 (acquired (handed.syncs 5) (handed.threads 1));
  syncs = update handed.syncs 5 (check_arc state_init (handed.syncs 5)).0;
}

taken-Reach : Reach first taken
unfolding initial step new_clock happens_before happens_after acquired
taken-Reach =
    and_then
      (and_then (and_then nothing (move 0 (at_time 10 (enter state_useful)) _ refl refl))
        (release 0 5 _ refl refl))
      (acquire 1 5 _ _ refl refl)

Reach-IsOrdered_example : IsOrdered ((taken.threads 1).clocks clock_useful)
Reach-IsOrdered_example = Reach-IsOrdered 1 clock_useful taken-Reach

Reach-Returns_example : Returns informed 0
Reach-Returns_example = Reach-Returns 0 informed-Reach

abbrev worker : ℕ → ThreadClock DependentMetric
worker t = record (new_clock 0 (pos 0) true) {
  stack = state_omp ∷ state_init ∷ [];
  clocks = λ i. reset (pos t);
}

barrier-Joined_example :
    (tc : ThreadClock DependentMetric) × Joined (worker 3 ∷ worker 9 ∷ []) new_sync (worker 5) tc
unfolding new_sync same_state
barrier-Joined_example =
    barrier-Joined (worker 3) (worker 9 ∷ []) new_sync (worker 5) refl
      ((state_omp, refl, refl), ((state_omp, refl, refl), tt)) (state_omp, refl, refl)

-- Outside MPI since 10, in OpenMP: the clock holds -10, and shows 20 at time 30.
abbrev waiting : ThreadClock TimeMetric
waiting = record fresh { stack = state_omp ∷ state_init ∷ []; clocks = λ i. reset (negsuc 9) }

happens_after-fresh_example :
    (r : SyncClock TimeMetric × ThreadClock TimeMetric) × (happens_after true new_sync waiting
      ≡ some r)
    × (time_of critical (r.1.clocks clock_ompi) ≡ pos 0)
unfolding reset Time.time_metric
happens_after-fresh_example =
    happens_after-fresh waiting state_omp critical clock_ompi refl
      (record { part = λ e. cc; clock = λ e. cc }) refl

-- Two threads raise a cell that holds 4 to 7 and to 5: both load 4, the first exchanges, and the
-- second retries and leaves.
race : Run MaxStep (pos 4) (start (pos 7 ∷ pos 5 ∷ [])) (pos 7) (finish (pos 7 ∷ pos 5 ∷ []))
race =
    then
      (then
        (then (then (then here (this MaxStep.load)) (later (this MaxStep.load)))
          (this (MaxStep.exchange refl refl)))
        (later (this (MaxStep.retry refl))))
      (later (this (MaxStep.leave refl)))

update_maximum_example :
    (pos 7 ≤ℤ pos 8) ↔ ((pos 4 ≤ℤ pos 8) × All (λ v. v ≤ℤ pos 8) (pos 7 ∷ pos 5 ∷ []))
update_maximum_example = update_maximum_lem (pos 4) (pos 7) (pos 7 ∷ pos 5 ∷ []) (pos 8) race

update_maximum_can_finish_example :
    (e : ℤ) × Run MaxStep (pos 4) (loaded (pos 7) (pos 4) ∷ []) e (finish (pos 7 ∷ []))
update_maximum_can_finish_example =
    update_maximum_can_finish (pos 4) (pos 4) (pos 7 ∷ []) (loaded (pos 7) (pos 4) ∷ [])
      (then here (this MaxStep.load))

sum_race : Run AddStep (pos 4) (start (pos 7 ∷ pos 5 ∷ [])) (pos 16) (finish (pos 7 ∷ pos 5 ∷ []))
unfolding ◌+ℤ◌
sum_race =
    then
      (then
        (then (then (then here (this AddStep.load)) (later (this AddStep.load)))
          (this (AddStep.exchange refl)))
        (later (this AddStep.retry)))
      (later (this (AddStep.exchange refl)))

atomic_add_example : pos 16 ≡ pos 4 +ℤ sum (pos 7 ∷ pos 5 ∷ [])
atomic_add_example = atomic_add_lem (pos 4) (pos 16) (pos 7 ∷ pos 5 ∷ []) sum_race
