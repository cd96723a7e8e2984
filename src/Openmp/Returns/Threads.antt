-- ===== src/Openmp/Returns/Threads.antt =====
-- The callbacks for parallel regions and implicit tasks, src/ompt-critical.cpp.
use otf_cpt.Common.{ℕ, ◌≡◌, ◌<◌, refl, sym, subst, ◌∙◌, ap, Bool, true, false}
use otf_cpt.Common.Int.{ℤ}
use otf_cpt.Clock.State.{state_init, state_useful, state_omp, same_state}
use otf_cpt.Clock.Metric.{Metric}
use otf_cpt.Openmp.Objects.{
  Sizes, Kind, team, pools_in, new_team, new_implicit, new_object, delete_task, give_back,
}
use otf_cpt.Openmp.Threads.{
  parallel_begin, parallel_end, join_team, implicit_task_begin, implicit_task_end,
}
use otf_cpt.Openmp.Locks.{mutex_acquire}
use otf_cpt.Tool.World.{World, TaskType, barrier}
use otf_cpt.Tool.Action.{when, count, enter, exit, current, release, acquire}
use otf_cpt.Openmp.Returns.Ran.{Ran-some, Ran-imp, Ran-bind}
use otf_cpt.Openmp.Returns.Primitives.{enter-Quiet, exit-Quiet}
use otf_cpt.Openmp.Returns.Clocks.{
  release-Quiet, acquire-Quiet, when-Quiet, count-Quiet, current-Quiet,
}
use otf_cpt.Openmp.Returns.Good.{Good, Ends, Quiet-first, Quiet-last, when-Ends, then-Good}
use otf_cpt.Openmp.Returns.Pools.{give_back-Returned}
use otf_cpt.Openmp.Returns.Objects.{new_object-Ends, new_implicit-Ends, delete_task-Freed}

module _ {M : Type 0} ⦃metric : Metric M⦄ where
  pub parallel_begin-Ends :
      {t : ℕ} (sizes : Sizes) (w : World M) → Good t w → Ends t (parallel_begin sizes t w)
  unfolding parallel_begin new_team
  parallel_begin-Ends {t} sizes w g =
      then-Good (new_object sizes team t) _ w (new_object-Ends sizes team w g) λ x w₁ g₁.
        Quiet-first _ (enter t state_omp) _ w₁ (enter-Quiet t state_omp) g₁ λ w₂ k₂ g₂.
          Quiet-first _ (release t (barrier x 1)) _ w₂ (release-Quiet t _) g₂
            λ w₃ k₃ g₃. Ran-some _ x w₃ g₃

  give_back-Ends :
      {t : ℕ} (k : Kind) (x : ℕ) (w : World M)
      → x < (pools_in k w.objects).created
      → Good t w
      → Ends t (give_back k t x w)
  give_back-Ends k x w h g = Ran-imp _ _ (λ u w' r. r.good) (give_back-Returned k x w h g)

  pub parallel_end-Ends :
      {t : ℕ} (x : ℕ) (w : World M)
      → x < w.team_pool.created
      → Good t w
      → Ends t (parallel_end t x w)
  unfolding parallel_end
  parallel_end-Ends {t} x w h g = Quiet-first _ (exit t true) _ w (exit-Quiet t true) g λ w₁ k₁ g₁.
      give_back-Ends team x w₁ (subst (λ o. x < o.team_pool.created) (sym k₁.objects) h) g₁

  join_team-Ends :
      {t : ℕ} (sizes : Sizes) (is_initial : Bool) (x : ℕ) (w : World M)
      → Good t w
      → Ends t (join_team sizes t is_initial x w)
  unfolding join_team new_team
  join_team-Ends sizes true x w g = new_object-Ends sizes team w g
  join_team-Ends {t} sizes false x w g =
      let (s, e) = current-Quiet t w g.valid.timed g.begun in
      Ran-bind (λ a w'. (a ≡ s) × (w' ≡ w)) _ (current t) _ w
        (record { value = s; after = w; returned = e; post = (refl, refl) })
        λ a w' (p, q).
          Quiet-first _ (when (same_state a state_init) (enter t state_omp)) _ w'
            (when-Quiet (same_state a state_init) _ (enter-Quiet t state_omp))
            (subst (Good t) (sym q) g)
            λ w₁ k₁ g₁.
              Quiet-first _ (acquire t (barrier x 1)) _ w₁ (acquire-Quiet t _) g₁
                λ w₂ k₂ g₂. Ran-some _ x w₂ g₂

  pub implicit_task_begin-Ends :
      {t : ℕ} (sizes : Sizes) (x : ℕ) (num : ℤ) (type : TaskType) (w : World M)
      → Good t w
      → Ends t (implicit_task_begin sizes t x num type w)
  unfolding implicit_task_begin
  implicit_task_begin-Ends {t} sizes x num type w g =
      Quiet-first _ (count t _) _ w (count-Quiet t _) g λ w₁ k₁ g₁.
        then-Good (join_team sizes t type.initial x) _ w₁
          (join_team-Ends sizes type.initial x w₁ g₁)
          λ y w₂ g₂.
            then-Good (new_implicit sizes t y num type) _ w₂
              (new_implicit-Ends sizes y num type w₂ g₂)
              λ i w₃ g₃.
                Quiet-first _ (enter t state_useful) _ w₃ (enter-Quiet t _) g₃
                  λ w₄ k₄ g₄. Ran-some _ (y, i) w₄ g₄

  -- The tasks and the teams that the callback deletes exist.
  pub implicit_task_end-Ends :
      {t : ℕ} (x i : ℕ) (type : TaskType) (w : World M)
      → i < w.task_pool.created
      → x < w.team_pool.created
      → Good t w
      → Ends t (implicit_task_end t x i type w)
  unfolding implicit_task_end
  implicit_task_end-Ends {t} x i type w hi hx g =
      Quiet-first _ (count t _) _ w (count-Quiet t _) g λ w₁ k₁ g₁.
        Quiet-first _ (exit t (w₁.tasks i).is_running) _ w₁ (exit-Quiet t _) g₁ λ w₂ k₂ g₂.
          let same = k₂.objects ∙ k₁.objects in
          Ran-bind _ _ (delete_task t i) _ w₂
            (delete_task-Freed i w₂ (subst (λ o. i < o.task_pool.created) (sym same) hi) g₂)
            λ u w₃ f. when-Ends type.initial _ w₃ f.good (
              give_back-Ends team x w₃
                (subst (λ n. x < n) (sym (f.teams ∙ ap (λ o. o.team_pool.created) same)) hx) f.good)

  pub mutex_acquire-Ends : {t : ℕ} (w : World M) → Good t w → Ends t (mutex_acquire t w)
  unfolding mutex_acquire
  mutex_acquire-Ends {t} w g =
      Quiet-first _ (count t _) _ w (count-Quiet t _) g
        λ w₁ k₁ g₁. Quiet-last (enter t state_omp) w₁ (enter-Quiet t _) g₁
