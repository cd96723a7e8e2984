-- ===== src/Openmp/Create.antt =====
-- src/ompt-critical.cpp: the callback that creates tasks, on thread `t`.
use otf_cpt.Common.{ℕ, suc, ◌||◌, if◌then◌else◌, Option, none, some}
use otf_cpt.Common.Int.{negsuc}
use otf_cpt.Clock.Metric.{Metric}
use otf_cpt.Tool.World.{TaskType, task}
use otf_cpt.Tool.Action.{Act, ◌>>=◌, ◌>>◌, pure, modify, on_task, count, release, omp_timer}
use otf_cpt.Openmp.Objects.{Sizes, new_team, new_implicit, new_child}

module _ {M : Type 0} ⦃metric : Metric M⦄ where
  module _ (sizes : Sizes) where
    -- The block of the `ompTimer` for a deferred task.
    unfoldable pub hand_to_task : ℕ → ℕ → ℕ → Act M (Unit {0})
    hand_to_task t parent i = do
      release t (task i)
      modify (on_task parent (λ d. record d { execution = suc d.execution }))

    unfoldable pub create_deferred : ℕ → ℕ → TaskType → Act M (Option ℕ)
    create_deferred t parent type = do
      i ← new_child sizes t parent type
      omp_timer t (hand_to_task t parent i)
      pure (some i)

    unfoldable pub create_included : ℕ → ℕ → TaskType → Act M (Option ℕ)
    create_included t parent type = do i ← new_child sizes t parent type; pure (some i)

    unfoldable pub create_initial : ℕ → TaskType → Act M (Option ℕ)
    create_initial t type = do
      team_data ← new_team sizes t
      i ← new_implicit sizes t team_data (negsuc 0) type
      pure (some i)

    -- The pointer that the callback stores, `none` where it stores none.
    unfoldable pub create_task : ℕ → ℕ → TaskType → Act M (Option ℕ)
    create_task t parent type =
        if type.initial
        then create_initial t type
        else (if type.undeferred
            then create_included t parent type
            else (if type.explicit || type.target
                then create_deferred t parent type
                else pure none))

    unfoldable pub task_create : ℕ → ℕ → TaskType → Act M (Option ℕ)
    task_create t parent type = do
      count t (λ c. record c { task_create = suc c.task_create })
      create_task t parent type
