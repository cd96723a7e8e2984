-- ===== src/Openmp/Returns/Dependences.antt =====
-- The callbacks for the dependences and the creation of tasks, src/ompt-critical.cpp.
use otf_cpt.Common.{
  ℕ, ◌≡◌, ◌<◌, refl, sym, ◌∙◌, ap, subst, Option, none, some, List, [], ◌∷◌, Bool, true, false,
  ◌||◌, if◌then◌else◌,
}
use otf_cpt.Common.Int.{negsuc}
use otf_cpt.Clock.Metric.{Metric}
use otf_cpt.Openmp.Objects.{
  Sizes, depend, set_pools, new_object, new_depend, new_team, new_child, new_implicit,
}
use otf_cpt.Openmp.Dependences.{
  find_depend, annotate_end, annotate_begin, acquire_all, release_dependencies,
  acquire_dependencies, insert_depend, depend_of, add_dependencies, set_dependencies, dependences,
}
use otf_cpt.Openmp.Create.{
  hand_to_task, create_deferred, create_included, create_initial, create_task, task_create,
}
use otf_cpt.Tool.World.{
  World, TaskType, TaskDependency, DependenceType, dep_in, dep_out, dep_inout, dep_mutexinoutset,
  dep_inoutset, task,
}
use otf_cpt.Tool.Action.{Act, count, release, omp_timer}
use otf_cpt.Openmp.Returns.Ran.{Ran-some, Ran-deref}
use otf_cpt.Openmp.Returns.Primitives.{Quiet, Quiet-bind}
use otf_cpt.Openmp.Returns.Clocks.{release-Quiet, acquire-Quiet, count-Quiet, done-Quiet}
use otf_cpt.Openmp.Returns.Good.{
  Good, Ends, Quiet-first, Quiet-last, on_task-Good, on_flags-Good, then-Good, omp_timer-Ends,
}
use otf_cpt.Openmp.Returns.Pools.{new_first}
use otf_cpt.Openmp.Returns.Objects.{new_object-Ends, new_implicit-Ends, new_child-Ends}
use otf_cpt.Openmp.Returns.Regions.{tasks-Kept}

module _ {M : Type 0} ⦃metric : Metric M⦄ where
  typed_end-Quiet :
      (t d : ℕ) (type : DependenceType)
      → Quiet {M = M} t (annotate_end t (record { depend = d; type = type }))
  unfolding annotate_end
  typed_end-Quiet t d dep_in = release-Quiet t _
  typed_end-Quiet t d dep_out = release-Quiet t _
  typed_end-Quiet t d dep_inout = release-Quiet t _
  typed_end-Quiet t d dep_mutexinoutset = release-Quiet t _
  typed_end-Quiet t d dep_inoutset = release-Quiet t _
  typed_end-Quiet t d _ = done-Quiet t

  acquire_all-Quiet : (t d : ℕ) → Quiet {M = M} t (acquire_all t d)
  unfolding acquire_all
  acquire_all-Quiet t d =
      Quiet-bind _ _ (acquire-Quiet t _) (Quiet-bind _ _ (acquire-Quiet t _) (acquire-Quiet t _))

  typed_begin-Quiet :
      (t d : ℕ) (type : DependenceType)
      → Quiet {M = M} t (annotate_begin t (record { depend = d; type = type }))
  unfolding annotate_begin
  typed_begin-Quiet t d dep_in = Quiet-bind _ _ (acquire-Quiet t _) (acquire-Quiet t _)
  typed_begin-Quiet t d dep_out = acquire_all-Quiet t d
  typed_begin-Quiet t d dep_inout = acquire_all-Quiet t d
  typed_begin-Quiet t d dep_mutexinoutset = acquire_all-Quiet t d
  typed_begin-Quiet t d dep_inoutset = Quiet-bind _ _ (acquire-Quiet t _) (acquire-Quiet t _)
  typed_begin-Quiet t d _ = done-Quiet t

  pub release_dependencies-Quiet :
      (t : ℕ) (l : List TaskDependency) → Quiet {M = M} t (release_dependencies t l)
  unfolding release_dependencies
  release_dependencies-Quiet t [] = done-Quiet t
  release_dependencies-Quiet t (d ∷ l) =
      Quiet-bind _ _ (typed_end-Quiet t d.depend d.type) (release_dependencies-Quiet t l)

  pub acquire_dependencies-Quiet :
      (t : ℕ) (l : List TaskDependency) → Quiet {M = M} t (acquire_dependencies t l)
  unfolding acquire_dependencies
  acquire_dependencies-Quiet t [] = done-Quiet t
  acquire_dependencies-Quiet t (d ∷ l) =
      Quiet-bind _ _ (typed_begin-Quiet t d.depend d.type) (acquire_dependencies-Quiet t l)

  module _ (sizes : Sizes) where
    insert_depend-Ends :
        {t : ℕ} (parent variable : ℕ) (found : Option ℕ) (w : World M)
        → Good t w
        → Ends t (insert_depend sizes t parent variable found w)
    unfolding insert_depend new_depend
    insert_depend-Ends parent variable (some d) w g = Ran-some _ d w g
    insert_depend-Ends parent variable none w g = new_first sizes depend _ _ w g λ d ps lt le g'.
        let v = g'.valid.linked.tasks parent in
        Ran-some _ d _ (
          on_task-Good parent _ (set_pools depend ps w)
            (record { parent = v.parent; group = v.group; map = (lt, v.map) }) g')

    depend_of-Ends :
        {t : ℕ} (parent variable : ℕ) (w : World M)
        → Good t w
        → Ends t (depend_of sizes t parent variable w)
    unfolding depend_of
    depend_of-Ends parent variable w g =
        insert_depend-Ends parent variable (find_depend variable (w.tasks parent).dependency_map) w
          g

    add_dependencies-Ends :
        {t : ℕ} (parent i : ℕ) (l : List (ℕ × DependenceType)) (w : World M)
        → Good t w
        → Ends t (add_dependencies sizes t parent i l w)
    unfolding add_dependencies
    add_dependencies-Ends {t} parent i [] w g = Ran-some _ tt w g
    add_dependencies-Ends {t} parent i ((x, type) ∷ l) w g =
        then-Good (depend_of sizes t parent x) _ w (depend_of-Ends parent x w g)
          λ d w₁ g₁. add_dependencies-Ends parent i l _ (on_flags-Good i _ w₁ refl g₁)

    set_dependencies-Ends :
        {t : ℕ} (i : ℕ) (l : List (ℕ × DependenceType)) (w : World M)
        → (p : ℕ) × ((w.tasks i).parent ≡ some p)
        → Good t w
        → Ends t (set_dependencies sizes t i l w)
    unfolding set_dependencies
    set_dependencies-Ends {t} i l w (p, e) g = Ran-deref _ (w.tasks i).parent p _ w e (
        then-Good (add_dependencies sizes t p i l) _ _
          (add_dependencies-Ends p i l _ (on_flags-Good i _ w refl g))
          λ u w₁ g₁. Quiet-last (release t (task i)) w₁ (release-Quiet t _) g₁)

    pub dependences-Ends :
        {t : ℕ} (i : ℕ) (l : List (ℕ × DependenceType)) (w : World M)
        → (p : ℕ) × ((w.tasks i).parent ≡ some p)
        → Good t w
        → Ends t (dependences sizes t i l w)
    unfolding dependences
    dependences-Ends {t} i [] w h g = Ran-some _ tt w g
    dependences-Ends {t} i (d ∷ l) w (p, e) g = omp_timer-Ends _ w g λ w₁ k₁ g₁.
        set_dependencies-Ends i (d ∷ l) w₁ (p, ap (λ d. d.parent) (tasks-Kept i k₁) ∙ e) g₁

    hand_to_task-Ends :
        {t : ℕ} (parent i : ℕ) (w : World M) → Good t w → Ends t (hand_to_task sizes t parent i w)
    unfolding hand_to_task
    hand_to_task-Ends {t} parent i w g =
        Quiet-first _ (release t (task i)) _ w (release-Quiet t _) g
          λ w₁ k₁ g₁. Ran-some _ tt _ (on_flags-Good parent _ w₁ refl g₁)

    create_initial-Ends :
        {t : ℕ} (type : TaskType) (w : World M) → Good t w → Ends t (create_initial sizes t type w)
    unfolding create_initial new_team
    create_initial-Ends {t} type w g =
        then-Good (new_object sizes _ t) _ w (new_object-Ends sizes _ w g) λ x w₁ g₁.
          then-Good (new_implicit sizes t x (negsuc 0) type) _ w₁
            (new_implicit-Ends sizes x (negsuc 0) type w₁ g₁) λ i w₂ g₂. Ran-some _ (some i) w₂ g₂

    create_included-Ends :
        {t : ℕ} (parent : ℕ) (type : TaskType) (w : World M)
        → parent < w.task_pool.created
        → Good t w
        → Ends t (create_included sizes t parent type w)
    unfolding create_included
    create_included-Ends {t} parent type w h g =
        then-Good (new_child sizes t parent type) _ w (new_child-Ends sizes parent type w h g)
          λ i w₁ g₁. Ran-some _ (some i) w₁ g₁

    create_deferred-Ends :
        {t : ℕ} (parent : ℕ) (type : TaskType) (w : World M)
        → parent < w.task_pool.created
        → Good t w
        → Ends t (create_deferred sizes t parent type w)
    unfolding create_deferred
    create_deferred-Ends {t} parent type w h g =
        then-Good (new_child sizes t parent type) _ w (new_child-Ends sizes parent type w h g)
          λ i w₁ g₁.
            then-Good (omp_timer t (hand_to_task sizes t parent i)) _ w₁
              (omp_timer-Ends _ w₁ g₁ λ w₂ k₂ g₂. hand_to_task-Ends parent i w₂ g₂)
              λ u w₃ g₃. Ran-some _ (some i) w₃ g₃

    if-Ends :
        {A : Type 0} {t : ℕ} (b : Bool) (m n : Act M A) (w : World M)
        → Ends t (m w)
        → Ends t (n w)
        → Ends t ((if b then m else n) w)
    if-Ends true m n w p q = p
    if-Ends false m n w p q = q

    create_task-Ends :
        {t : ℕ} (parent : ℕ) (type : TaskType) (w : World M)
        → parent < w.task_pool.created
        → Good t w
        → Ends t (create_task sizes t parent type w)
    unfolding create_task
    create_task-Ends {t} parent type w h g =
        if-Ends type.initial _ _ w (create_initial-Ends type w g) (
          if-Ends type.undeferred _ _ w (create_included-Ends parent type w h g) (
            if-Ends (type.explicit || type.target) _ _ w (create_deferred-Ends parent type w h g)
              (Ran-some _ none w g)))

    pub task_create-Ends :
        {t : ℕ} (parent : ℕ) (type : TaskType) (w : World M)
        → parent < w.task_pool.created
        → Good t w
        → Ends t (task_create sizes t parent type w)
    unfolding task_create
    task_create-Ends {t} parent type w h g =
        Quiet-first _ (count t _) _ w (count-Quiet t _) g λ w₁ k₁ g₁.
          create_task-Ends parent type w₁
            (subst (λ o. parent < o.task_pool.created) (sym k₁.objects) h) g₁
