-- ===== src/Openmp/Calls/Session.antt =====
-- A program of one thread that starts and ends, with the default flags.
use otf_cpt.Common.{true, false, Option, some, ◌≡◌, refl, [], ◌∷◌, arith}
use otf_cpt.Common.Int.{pos, ◌≤ℤ◌, ◌-ℤ◌, ◌+ℤ◌, neg, max_ℤ}
use otf_cpt.Clock.Metric.Time.{TimeMetric, time_metric}
use otf_cpt.Clock.Thread.{enter_state, set_state}
use otf_cpt.Openmp.Threads.{initialize, thread_begin}
use otf_cpt.Openmp.Calls.Tests.{after, sizes, ticking, w1, Stage, began}
use otf_cpt.Openmp.Calls.Finish.{Gathered, Reach-finish_measurement}
use otf_cpt.Openmp.Calls.Balance.{Process, processes-AtMostOne}
use otf_cpt.Common.Ratio.{IsAtMostOne}
use otf_cpt.Tool.Pop.{results, measured, over_processes, add_runtime, uc_max}
use otf_cpt.Tool.Pop.Tests.{plain, plain-IsReduction}
use otf_cpt.Tool.World.{World, Summary, initial_world}
use otf_cpt.Tool.Action.{count, need_clock, enter, enter_at, on_clock, get_time, current, set}
use otf_cpt.Tool.Measure.{
  start_tool, start_measurement, stop_measurement, gather_all, gather, gather_thread, thread_times,
  add_totals, add_all_counts, add_counts, finish_measurement,
}

abbrev started : World TimeMetric
started = w1

abbrev ended : World TimeMetric
ended = after (finish_measurement (pos 0) 0 started)

abbrev gained : Summary
gained = record {
  runtime = pos 30;
  num_threads = 1;
  total_threads = 1;
  useful_sum = pos 20;
  useful_max = pos 20;
  oomp_sum = pos 20;
  oomp_max = pos 20;
  ompi_proc = pos 30;
  useful_proc = pos 20;
  oomp_proc = pos 20;
  ompi_critical = pos 30;
  useful_critical = pos 20;
  oomp_critical = pos 20;
}

run : (ended.summary ≡ some gained) × (started.finished ≡ false) × (started.thread_clocks ≡ 0 ∷ [])
unfolding initialize start_tool start_measurement enter_at on_clock get_time thread_begin
    initial_world need_clock enter enter_state count current finish_measurement stop_measurement set
    gather_all gather gather_thread thread_times add_totals add_all_counts add_counts set_state ◌-ℤ◌
    ◌+ℤ◌ time_metric neg
run = (refl, refl, refl)

stage : Stage started
stage = began

Gathered-after : (r : Option (Unit {0} × World TimeMetric)) → Gathered r → r ≡ some (tt, after r)
Gathered-after r g = rw g.returned refl

abbrev process : Process TimeMetric sizes (pos 0)
process = record {
  stopped = false;
  dump = false;
  times = ticking;
  world = started;
  reached = stage.reached;
  thread = 0;
  begun = stage.begun;
  unfinished = run.1;
  first = 0;
  rest = [];
  listed = run.2;
  after = ended;
  finishes =
      Gathered-after _
        (Reach-finish_measurement sizes (pos 0) 0 0 [] stage.reached stage.begun run.1 run.2);
  values = gained;
  stored = run.0;
}

gained_pos : pos 1 ≤ℤ (results plain true process.values (process.values ∷ [])).0.max.useful
unfolding results measured over_processes add_runtime uc_max max_ℤ
gained_pos = omega arith

processes-AtMostOne_example :
    let e = (results plain true gained (gained ∷ [])).1 in
    IsAtMostOne e.lb × IsAtMostOne e.mpi_lb × IsAtMostOne e.omp_lb
processes-AtMostOne_example =
    processes-AtMostOne sizes (pos 0) plain plain-IsReduction true process (process ∷ []) gained_pos
