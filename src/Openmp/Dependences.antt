-- ===== src/Openmp/Dependences.antt =====
-- src/ompt-critical.cpp: the dependences of tasks. The map of a parent's dependences is a list of keys
-- and data, the newest first. The data of a dependence stand under its number, see Tool/World.antt.
use otf_cpt.Common.{ℕ, Option, none, some, List, [], ◌∷◌, ◌++◌, if◌then◌else◌, ◌==◌}
use otf_cpt.Clock.Metric.{Metric}
use otf_cpt.Tool.World.{
  TaskDependency, DependenceType, dep_in, dep_out, dep_inout, dep_mutexinoutset, dep_inoutset, task,
  in_clock, out_clock, inoutset_clock,
}
use otf_cpt.Tool.Action.{
  Act, ◌>>=◌, ◌>>◌, pure, done, deref, fetch, modify, on_task, release, acquire, omp_timer,
}
use otf_cpt.Openmp.Objects.{Sizes, new_depend}

-- What `insert` of the dependency map finds under a key.
unfoldable pub find_depend : ℕ → List (ℕ × ℕ) → Option ℕ
find_depend key [] = none
find_depend key ((k, d) ∷ r) = if k == key then some d else find_depend key r

module _ {M : Type 0} ⦃metric : Metric M⦄ where
  -- `AnnotateEnd`
  unfoldable pub annotate_end : ℕ → TaskDependency → Act M (Unit {0})
  annotate_end t dep = elim dep.type [
    | dep_out ↦ release t (out_clock dep.depend)
    | dep_inout ↦ release t (out_clock dep.depend)
    | dep_mutexinoutset ↦ release t (out_clock dep.depend)
    | dep_in ↦ release t (in_clock dep.depend)
    | dep_inoutset ↦ release t (inoutset_clock dep.depend)
    | _ ↦ done
  ]

  unfoldable pub acquire_all : ℕ → ℕ → Act M (Unit {0})
  acquire_all t d = do acquire t (in_clock d); acquire t (out_clock d); acquire t (inoutset_clock d)

  -- `AnnotateBegin`
  unfoldable pub annotate_begin : ℕ → TaskDependency → Act M (Unit {0})
  annotate_begin t dep = elim dep.type [
    | dep_out ↦ acquire_all t dep.depend
    | dep_inout ↦ acquire_all t dep.depend
    | dep_mutexinoutset ↦ acquire_all t dep.depend
    | dep_in ↦ (do acquire t (out_clock dep.depend); acquire t (inoutset_clock dep.depend))
    | dep_inoutset ↦ (do acquire t (in_clock dep.depend); acquire t (out_clock dep.depend))
    | _ ↦ done
  ]

  unfoldable pub release_dependencies : ℕ → List TaskDependency → Act M (Unit {0})
  release_dependencies t [] = done
  release_dependencies t (d ∷ r) = do annotate_end t d; release_dependencies t r

  unfoldable pub acquire_dependencies : ℕ → List TaskDependency → Act M (Unit {0})
  acquire_dependencies t [] = done
  acquire_dependencies t (d ∷ r) = do annotate_begin t d; acquire_dependencies t r

  module _ (sizes : Sizes) where
    -- The data that were found, or new data, which the parent's map keeps.
    unfoldable pub insert_depend : ℕ → ℕ → ℕ → Option ℕ → Act M ℕ
    insert_depend t parent variable (some d) = pure d
    insert_depend t parent variable none = do
      d ← new_depend sizes t
      modify (on_task parent (λ e. record e { dependency_map = (variable, d) ∷ e.dependency_map }))
      pure d

    unfoldable pub depend_of : ℕ → ℕ → ℕ → Act M ℕ
    depend_of t parent variable = do
      found ← fetch (λ w. find_depend variable (w.tasks parent).dependency_map)
      insert_depend t parent variable found

    unfoldable pub add_dependencies : ℕ → ℕ → ℕ → List (ℕ × DependenceType) → Act M (Unit {0})
    add_dependencies t parent i [] = done
    add_dependencies t parent i ((variable, type) ∷ r) = do
      d ← depend_of t parent variable
      modify (
          on_task i (λ e. record e {
            dependencies = e.dependencies ++ (record { depend = d; type = type }) ∷ [];
          }))
      add_dependencies t parent i r

    unfoldable pub set_dependencies : ℕ → ℕ → List (ℕ × DependenceType) → Act M (Unit {0})
    set_dependencies t i deps = do
      d ← fetch (λ w. w.tasks i)
      parent ← deref d.parent
      modify (on_task i (λ e. record e { dependencies = [] }))
      add_dependencies t parent i deps
      release t (task i)

    unfoldable pub dependences : ℕ → ℕ → List (ℕ × DependenceType) → Act M (Unit {0})
    dependences t i [] = done
    dependences t i (d ∷ r) = omp_timer t (set_dependencies t i (d ∷ r))
