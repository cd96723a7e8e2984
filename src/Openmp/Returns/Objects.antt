-- ===== src/Openmp/Returns/Objects.antt =====
-- `New` and `Delete` of teams, taskgroups, tasks and dependences, src/ompt-critical.cpp.
use otf_cpt.Common.{
  ℕ, ◌≡◌, ◌<◌, refl, sym, ap, ◌∙◌, subst, Option, some, some-injective, arith, All, List, [], ◌∷◌,
  update, update-Each,
}
use otf_cpt.Common.Int.{ℤ}
use otf_cpt.Clock.Metric.{Metric}
use otf_cpt.Openmp.Objects.{
  Sizes, Kind, group, task, depend, set_pools, new_object, give_back, delete_depends, delete_task,
  new_group, new_implicit, new_child,
}
use otf_cpt.Tool.World.{World, TaskType, reset_task}
use otf_cpt.Tool.Action.{Act, ◌>>=◌, modify, on_task}
use otf_cpt.Openmp.Returns.Valid.{Extent, links_of, IsTask}
use otf_cpt.Openmp.Returns.Ran.{Ran, Ran-some, Ran-imp, Ran-bind}
use otf_cpt.Openmp.Returns.Good.{Good, Ends, objects-Good, on_task-Good, on_flags-Good}
use otf_cpt.Openmp.Returns.Pools.{new_object-Made, new_first, Returned, give_back-Returned}

reset_task-IsTask : (z : Extent) (i : ℕ) → IsTask z i (links_of reset_task)
unfolding reset_task
reset_task-IsTask z i = record { parent = λ p e. cc; group = λ g e. cc; map = tt }

module _ {M : Type 0} ⦃metric : Metric M⦄ where
  delete_depends-Returned :
      {t : ℕ} (l : List (ℕ × ℕ)) (w : World M)
      → All (λ (e : ℕ × ℕ). e.1 < w.depend_pool.created) l
      → Good t w
      → Ran (λ u w'. Returned depend t w w') (delete_depends t l w)
  unfolding delete_depends
  delete_depends-Returned [] w h g =
      Ran-some _ tt w (record { pool = w.depend_pool; same = refl; created = refl; good = g })
  delete_depends-Returned {t} ((key, d) ∷ l) w h g =
      Ran-bind _ _ (delete_depends t l) _ w (delete_depends-Returned l w h.1 g) λ u w₁ r.
        Ran-imp _ _
          (λ u w₂ q. record {
            pool = q.pool;
            same = q.same ∙ ap (set_pools depend q.pool) r.same;
            created = q.created ∙ (ap (λ v. v.depend_pool.created) r.same ∙ r.created);
            good = q.good;
          })
          (give_back-Returned depend d w₁
            (subst (λ v. d < v.depend_pool.created) (sym r.same)
              (subst (λ n. d < n) (sym r.created) h.0))
            r.good)

  -- The task is as new, and the others are as they were.
  pub record Freed (t i : ℕ) (w w' : World M) : Type 0 where
    pub tasks : w'.tasks ≡ update w.tasks i reset_task
    pub created : w'.task_pool.created ≡ w.task_pool.created
    pub teams : w'.team_pool.created ≡ w.team_pool.created
    pub good : Good t w'

  pub delete_task-Freed :
      {t : ℕ} (i : ℕ) (w : World M)
      → i < w.task_pool.created
      → Good t w
      → Ran (λ u w'. Freed t i w w') (delete_task t i w)
  unfolding delete_task
  delete_task-Freed {t} i w h g =
      Ran-bind _ _ (delete_depends t (w.tasks i).dependency_map) _ w
        (delete_depends-Returned (w.tasks i).dependency_map w (g.valid.linked.tasks i).map g)
        λ u w₁ r.
          subst (λ v. Ran (λ u w'. Freed t i w w') (emptied v)) (sym r.same)
            (Ran-imp _ _
              (λ u w' q. record {
                tasks = ap (λ v. v.tasks) q.same;
                created = ap (λ v. v.task_pool.created) q.same ∙ q.created;
                teams = ap (λ v. v.team_pool.created) q.same;
                good = q.good;
              })
              (give_back-Returned task i _ h (
                on_task-Good i reset_task (set_pools depend r.pool w) (reset_task-IsTask _ i)
                  (subst (Good t) r.same r.good))))
    where
      emptied : Act M (Unit {0})
      emptied = modify (on_task i (λ d. reset_task)) >>= λ u. give_back task t i

  module _ (sizes : Sizes) where
    pub new_object-Ends :
        {t : ℕ} (k : Kind) (w : World M) → Good t w → Ends t (new_object sizes k t w)
    new_object-Ends k w g = Ran-imp _ _ (λ x w' m. m.good) (new_object-Made sizes k w g)

    pub new_group-Ends :
        {t : ℕ} (parent : Option ℕ) (w : World M)
        → ((p : ℕ) → parent ≡ some p → p < w.group_pool.created)
        → Good t w
        → Ran
            (λ g w'. Good t w' × (g < w'.group_pool.created) × (w'.tasks ≡ w.tasks))
            (new_group sizes t parent w)
    unfolding new_group
    new_group-Ends {t} parent w h g = new_first sizes group _ _ w g λ x ps lt le g'.
        Ran-some _ x _ (
          objects-Good _
              (record {
                task_pool = g'.valid.linked.task_pool;
                team_pool = g'.valid.linked.team_pool;
                group_pool = g'.valid.linked.group_pool;
                depend_pool = g'.valid.linked.depend_pool;
                tasks = g'.valid.linked.tasks;
                groups =
                    update-Each (λ y o. (p : ℕ) → o ≡ some p → p < ps.created) w.group_parent x
                      parent (λ p e. omega (arith, h p e)) (λ y n. g'.valid.linked.groups y);
              })
              g',
          lt,
          refl,
        )

    pub new_implicit-Ends :
        {t : ℕ} (team_of : ℕ) (num : ℤ) (type : TaskType) (w : World M)
        → Good t w
        → Ends t (new_implicit sizes t team_of num type w)
    unfolding new_implicit
    new_implicit-Ends {t} team_of num type w g =
        new_first sizes task _ _ w g
          λ x ps lt le g'. Ran-some _ x _ (on_flags-Good x _ (set_pools task ps w) refl g')

    pub new_child-Ends :
        {t : ℕ} (parent : ℕ) (type : TaskType) (w : World M)
        → parent < w.task_pool.created
        → Good t w
        → Ends t (new_child sizes t parent type w)
    unfolding new_child
    new_child-Ends {t} parent type w h g = new_first sizes task _ _ w g λ x ps lt le g'.
        let own = g'.valid.linked.tasks x in
        let g₁ =
          on_task-Good x _ (set_pools task ps w)
            (record {
              parent = λ p e.
                  subst (λ q. (x < ps.created) × (q < ps.created)) (some-injective _ _ e)
                    (lt, omega arith);
              group = own.group;
              map = own.map;
            })
            g' in
        let v = g₁.valid.linked.tasks parent in
        let g₂ =
          on_task-Good parent _ _ (record { parent = v.parent; group = v.group; map = v.map }) g₁ in
        let u = g₂.valid.linked.tasks x in
        Ran-some _ x _ (
          on_task-Good x _ _
            (record {
              parent = u.parent;
              group = (g'.valid.linked.tasks parent).group;
              map = u.map;
            })
            g₂)
