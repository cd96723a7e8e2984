-- ===== src/Openmp/Order/Tests.antt =====
-- A task that writes a variable, and one that reads it, with time as the metric.
use otf_cpt.Common.{
  ℕ, true, false, some, [], ◌∷◌, ◌++◌, ◌*◌, ◌-◌, subst, some-injective, refl, arith,
}
use otf_cpt.Common.Int.{pos}
use otf_cpt.Clock.State.{state_omp, state_init, clock_useful, same_state}
use otf_cpt.Clock.Activity.{critical}
use otf_cpt.Clock.Barrier.{IsShared}
use otf_cpt.Clock.CpClocks.{reset}
use otf_cpt.Clock.Metric.Time.{TimeMetric, time_metric}
use otf_cpt.Clock.Metric.Time
use otf_cpt.Clock.Thread.{ThreadClock, new_clock}
use otf_cpt.Openmp.Dependences.{release_dependencies, acquire_dependencies}
use otf_cpt.Clock.Ordered.{reset-IsOrdered}
use otf_cpt.Clock.System.{IsThread}
use otf_cpt.Clock.Sync.{new_sync}
use otf_cpt.Openmp.Order.{Has}
use otf_cpt.Openmp.Order.Ring.{IsFresh, barrier_begin-IsFresh}
use otf_cpt.Openmp.Regions.{barrier_begin}
use otf_cpt.Openmp.Returns.Good.{Good}
use otf_cpt.Openmp.Returns.Valid.{initial_world-IsValid}
use otf_cpt.Openmp.Order.Dependences.{reads, writes, dependences-Ran}
use otf_cpt.Openmp.Returns.Ran.{Ran}
use otf_cpt.Openmp.Order.Completion.{by_parent, complete_task-Ran}
use otf_cpt.Openmp.Schedule.{complete_task}
use otf_cpt.Tool.Action.{◌>>◌, acquire}
use otf_cpt.Tool.World.{
  World, TaskDependency, dep_in, dep_out, dep_inoutset, initial_world, reset_task, taskwait,
  barrier, new_counts,
}

on_useful : IsShared critical clock_useful
on_useful = record { part = λ e. cc; clock = λ e. cc }

abbrev worker : ℕ → ThreadClock TimeMetric
worker t = record (new_clock t (pos 0) true) {
  stack = state_omp ∷ state_init ∷ [];
  clocks = λ i. reset (pos (10 * (5 - t)));
}

-- Thread 0 is at 50, and thread 1 at 40.
abbrev busy : World TimeMetric
busy = record (initial_world false false (λ n. pos n)) {
  running = true;
  threads = λ t. some (worker t);
}

abbrev writer : TaskDependency
writer = record { depend = 3; type = dep_out }

abbrev reader : TaskDependency
reader = record { depend = 3; type = dep_in }

abbrev unrelated : TaskDependency
unrelated = record { depend = 4; type = dep_inoutset }

dependences-Ran_example :
    Ran
      (λ x w'. Has critical clock_useful on_useful (pos 50) 1 w')
      ((release_dependencies 0 (unrelated ∷ [] ++ writer ∷ [])
          >> acquire_dependencies 1 ([] ++ reader ∷ unrelated ∷ []))
        busy)
unfolding initial_world new_clock same_state reset Time.time_metric
dependences-Ran_example =
    dependences-Ran critical clock_useful on_useful (pos 50) 0 1 (unrelated ∷ []) [] []
      (unrelated ∷ []) writer reader writes reads busy refl refl refl refl refl
      (worker 0, refl, (state_omp, refl, refl)) (worker 1, refl, (state_omp, refl, refl))
      (worker 0, refl, omega arith)

-- A child of task 1 in team 2 that has written the variable.
abbrev tree : World TimeMetric
tree = record busy {
  objects = record busy.objects {
    tasks = λ j. record reset_task { team = some 2; parent = some 1; dependencies = writer ∷ [] };
  };
}

complete_task-Ran_example :
    Ran
      (λ x w'. Has critical clock_useful on_useful (pos 50) 1 w')
      ((complete_task 0 7 >> acquire 1 (taskwait 1)) tree)
unfolding initial_world reset_task new_clock same_state reset Time.time_metric
complete_task-Ran_example =
    complete_task-Ran critical clock_useful on_useful (pos 50) 0 1 7 (taskwait 1) tree
      (record { team = (2, refl); parent = (1, refl) }) refl (by_parent refl) refl
      (worker 0, refl, (state_omp, refl, refl)) (worker 1, refl, (state_omp, refl, refl))
      (worker 0, refl, omega arith)

-- The same threads with their counters, and thread 0 in the team.
abbrev team_up : World TimeMetric
team_up = record tree {
  counts = λ t. some new_counts;
  objects = record tree.objects {
    tasks = λ j. record reset_task { team = some 2; thread_num = pos 0 };
  };
}

team_up-Good : Good 0 team_up
unfolding initial_world reset_task new_clock new_sync Time.time_metric
team_up-Good =
    let v = initial_world-IsValid {M = TimeMetric} false false (λ n. pos n) in
    record {
      valid = record {
        timed = record {
          threads = λ t tc e.
              subst IsThread (some-injective _ _ e)
                (record { stack = refl; ordered = λ i. reset-IsOrdered (pos (10 * (5 - t))) });
          syncs = v.timed.syncs;
        };
        linked = record {
          task_pool = v.linked.task_pool;
          team_pool = v.linked.team_pool;
          group_pool = v.linked.group_pool;
          depend_pool = v.linked.depend_pool;
          tasks = λ i. record { parent = λ p e. cc; group = λ g e. cc; map = tt };
          groups = v.linked.groups;
        };
        listed = record { clocks = tt; counters = tt };
      };
      begun = record { clock = (worker 0, refl); counters = (new_counts, refl) };
    }

barrier_begin-IsFresh_example :
    Ran (λ u w'. IsFresh (w'.syncs (barrier 2 1))) (barrier_begin 0 4 team_up)
unfolding initial_world reset_task
barrier_begin-IsFresh_example = barrier_begin-IsFresh 0 4 2 team_up team_up-Good refl refl refl
