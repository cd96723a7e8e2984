-- ===== src/Openmp/Objects.antt =====
-- src/ompt-critical.cpp: `New`, `Init`, `Reset` and `Delete` of the objects that the callbacks keep
-- for teams (`ParallelData`), taskgroups, tasks and dependences. Each stands in a pool of the thread
-- that made it. The pools of a thread are made together with its counters.
use otf_cpt.Common.{ℕ, List, [], ◌∷◌, Option, some, update}
use otf_cpt.Common.Int.{ℤ, pos, ◌+ℤ◌}
use otf_cpt.Openmp.Pool.{Pools, get_data, delete}
use otf_cpt.Tool.World.{World, Objects, TaskType, reset_task}
use otf_cpt.Tool.Action.{Act, ◌>>=◌, ◌>>◌, pure, done, deref, fetch, modify, on_task}

-- The types of objects, each with its `ThreadDataPool`.
pub data Kind : Type 0 where
  team group task depend : Kind

-- The size of a page, and of an object of each type.
pub record Sizes : Type 0 where
  pub page : ℕ
  pub elem : Kind → ℕ

abbrev pub pools_in : Kind → Objects → Pools
pools_in team o = o.team_pool
pools_in group o = o.group_pool
pools_in task o = o.task_pool
pools_in depend o = o.depend_pool

abbrev pub with_pools : Kind → Pools → Objects → Objects
with_pools team ps o = record o { team_pool = ps }
with_pools group ps o = record o { group_pool = ps }
with_pools task ps o = record o { task_pool = ps }
with_pools depend ps o = record o { depend_pool = ps }

module _ {M : Type 0} where
  abbrev pub set_pools : Kind → Pools → World M → World M
  set_pools kind ps w = record w { objects = with_pools kind ps w.objects }

  -- `DataPoolEntry::New`
  unfoldable pub new_object : Sizes → Kind → ℕ → Act M ℕ
  new_object sizes kind t = do
    c ← fetch (λ w. w.counts t)
    deref c
    r ← fetch (λ w. get_data sizes.page (sizes.elem kind) t (pools_in kind w.objects))
    r ← deref r
    modify (set_pools kind r.1)
    pure r.0

  -- The end of `DataPoolEntry::Delete`
  unfoldable pub give_back : Kind → ℕ → ℕ → Act M (Unit {0})
  give_back kind t x = do
    c ← fetch (λ w. w.counts t)
    deref c
    modify (λ w. set_pools kind (delete t x (pools_in kind w.objects)) w)

  -- `Reset` of the dependences of a task, the oldest first.
  unfoldable pub delete_depends : ℕ → List (ℕ × ℕ) → Act M (Unit {0})
  delete_depends t [] = done
  delete_depends t ((key, d) ∷ r) = do delete_depends t r; give_back depend t d

  -- `TaskData::Delete`
  unfoldable pub delete_task : ℕ → ℕ → Act M (Unit {0})
  delete_task t i = do
    map ← fetch (λ w. (w.tasks i).dependency_map)
    delete_depends t map
    modify (on_task i (λ d. reset_task))
    give_back task t i

  module _ (sizes : Sizes) where
    unfoldable pub new_team : ℕ → Act M ℕ
    new_team t = new_object sizes team t

    unfoldable pub new_group : ℕ → Option ℕ → Act M ℕ
    new_group t parent = do
      g ← new_object sizes group t
      modify (λ w. record w {
        objects = record w.objects { group_parent = update w.group_parent g parent };
      })
      pure g

    unfoldable pub new_depend : ℕ → Act M ℕ
    new_depend t = new_object sizes depend t

    -- `TaskData::New(team, threadNum, taskType)`, and without `threadNum` the same with -1.
    unfoldable pub new_implicit : ℕ → ℕ → ℤ → TaskType → Act M ℕ
    new_implicit t team_of thread_num type = do
      i ← new_object sizes task t
      running ← fetch (λ w. w.running)
      modify (
          on_task i (λ d. record d {
            is_running = running;
            task_type = type;
            execution = 1;
            implicit_task = some i;
            team = some team_of;
            thread_num = thread_num;
          }))
      pure i

    -- `TaskData::New(parent, taskType)`
    unfoldable pub new_child : ℕ → ℕ → TaskType → Act M ℕ
    new_child t parent type = do
      i ← new_object sizes task t
      running ← fetch (λ w. w.running)
      p ← fetch (λ w. w.tasks parent)
      modify (
          on_task i (λ d. record d {
            is_running = running;
            task_type = type;
            parent = some parent;
            team = p.team;
          }))
      modify (on_task parent (λ d. record d { ref_count = d.ref_count +ℤ pos 1 }))
      modify (on_task i (λ d. record d { task_group = p.task_group }))
      pure i
