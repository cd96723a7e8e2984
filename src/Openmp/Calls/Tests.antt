-- ===== src/Openmp/Calls/Tests.antt =====
-- A parallel region with one explicit task, with time as the metric.
use otf_cpt.Common.{
  ℕ, true, false, Option, none, some, ◌≡◌, refl, arith, ◌*◌, ◌+◌, ◌∙◌, ap, subst, [], ◌∷◌,
}
use otf_cpt.Common.Int.{ℤ, pos}
use otf_cpt.Clock.Metric.Time.{TimeMetric, time_metric}
use otf_cpt.Openmp.Objects.{new_team, new_object, new_implicit, Sizes}
use otf_cpt.Openmp.Threads.{
  initialize, implicit_task_begin, parallel_begin, join_team, thread_begin,
}
use otf_cpt.Openmp.Calls.{
  Callback, on_parallel_begin, on_implicit_begin, on_task_create, Allowed, run_callback, Reach,
  start, begin, call,
}
use otf_cpt.Openmp.Calls.Finish.{Gathered, Reach-finish_measurement}
use otf_cpt.Tool.Measure.{finish_measurement, start_tool, start_measurement}
use otf_cpt.Openmp.Calls.Return.{Answered, Reach-run_callback, Reach-thread_begin}
use otf_cpt.Openmp.Returns.Valid.{Begun}
use otf_cpt.Tool.World.{World, TaskType, no_type, initial_world}
use otf_cpt.Tool.Action.{
  count, need_clock, enter, enter_at, on_clock, get_time, release, current, acquire,
}
use otf_cpt.Clock.Thread.{enter_state}
use otf_cpt.Openmp.Pool.{get_data}

abbrev pub sizes : Sizes
sizes = record { page = 4096; elem = λ k. 64 }

abbrev pub after : Option (Unit {0} × World TimeMetric) → World TimeMetric
after none = initial_world true false (λ n. pos 0)
after (some (u, w)) = w

abbrev pub ticking : ℕ → ℤ
ticking n = pos (10 * (n + 1))

-- The tool has started, and its initial thread has a clock.
abbrev w0 : World TimeMetric
w0 = after (initialize 0 (initial_world false false ticking))

started : initialize 0 (initial_world false false ticking) ≡ some (tt, w0)
unfolding initialize initial_world need_clock start_tool start_measurement enter_at on_clock
    get_time current enter_state
started = refl

abbrev pub w1 : World TimeMetric
w1 = after (thread_begin 0 true w0)

after-eq : {t : ℕ} (r : Option (Unit {0} × World TimeMetric)) (a : Answered t r) → a.after ≡ after r
after-eq r a = rw a.returned refl

some-after :
    {t : ℕ} (r : Option (Unit {0} × World TimeMetric)) → Answered t r → r ≡ some (tt, after r)
some-after r a = a.returned ∙ ap (λ w. some (tt, w)) (after-eq r a)

-- A state that calls lead to, on a thread that has begun.
pub record Stage (w : World TimeMetric) : Type 0 where
  pub reached : Reach sizes (pos 0) false false ticking w
  pub begun : Begun 0 w

not_begun : w0.counts 0 ≡ none
unfolding initialize initial_world need_clock start_tool start_measurement enter_at on_clock
    get_time current enter_state
not_begun = refl

pub began : Stage w1
began =
    let r : Reach sizes (pos 0) false false ticking w0 = start 0 started in
    let a = Reach-thread_begin sizes (pos 0) 0 true r not_begun in
    record {
      reached = begin 0 true r not_begun (some-after _ a);
      begun = subst (Begun 0) (after-eq _ a) a.begun;
    }

pub next :
    {w : World TimeMetric} (c : Callback)
    → Allowed c w
    → Stage w
    → Stage (after (run_callback sizes (pos 0) 0 c w))
next c h s =
    let a = Reach-run_callback sizes (pos 0) 0 c s.reached s.begun h in
    record {
      reached = call 0 c s.reached s.begun h (some-after _ a);
      begun = subst (Begun 0) (after-eq _ a) a.begun;
    }

-- The initial thread begins a parallel region and its implicit task in it.
abbrev w2 : World TimeMetric
w2 = after (run_callback sizes (pos 0) 0 on_parallel_begin w1)

abbrev w3 : World TimeMetric
w3 = after (run_callback sizes (pos 0) 0 (on_implicit_begin 0 (pos 0) no_type) w2)

created : w3.task_pool.created ≡ 64
unfolding initialize start_tool start_measurement enter_at on_clock get_time run_callback
    thread_begin initial_world implicit_task_begin count parallel_begin new_team new_object
    need_clock enter enter_state get_data release join_team current acquire new_implicit
created = refl

abbrev explicit : TaskType
explicit = record no_type { explicit = true }

Reach-run_callback_example :
    Answered 0 (run_callback sizes (pos 0) 0 (on_task_create 0 explicit) w3)
Reach-run_callback_example =
    Reach-run_callback sizes (pos 0) 0 (on_task_create 0 explicit)
      (next (on_implicit_begin 0 (pos 0) no_type) tt (next on_parallel_begin tt began)).reached
      (next (on_implicit_begin 0 (pos 0) no_type) tt (next on_parallel_begin tt began)).begun
      (omega (arith, created))

-- The initial thread has its clock before it begins.
Reach-thread_begin_example : Answered 0 (thread_begin 0 true w0)
Reach-thread_begin_example = Reach-thread_begin sizes (pos 0) 0 true (start 0 started) not_begun

open_list : (w3.finished ≡ false) × (w3.thread_clocks ≡ 0 ∷ [])
unfolding initialize start_tool start_measurement enter_at on_clock get_time run_callback
    thread_begin initial_world implicit_task_begin count parallel_begin new_team new_object
    need_clock enter enter_state get_data release join_team current acquire new_implicit
open_list = (refl, refl)

Reach-finish_measurement_example : Gathered (finish_measurement (pos 0) 0 w3)
Reach-finish_measurement_example =
    Reach-finish_measurement sizes (pos 0) 0 0 []
      (next (on_implicit_begin 0 (pos 0) no_type) tt (next on_parallel_begin tt began)).reached
      (next (on_implicit_begin 0 (pos 0) no_type) tt (next on_parallel_begin tt began)).begun
      open_list.0 open_list.1
