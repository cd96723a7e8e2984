-- ===== src/Openmp/Returns/Good.antt =====
-- The state that a callback needs, and rules for blocks that change tasks, taskgroups and pools.
use otf_cpt.Common.{ℕ, ◌≡◌, refl, sym, subst, Option, Bool, true, false, update-Each}
use otf_cpt.Clock.State.{state_omp}
use otf_cpt.Clock.Metric.{Metric}
use otf_cpt.Tool.World.{World, Objects, TaskData}
use otf_cpt.Tool.Action.{Act, ◌>>=◌, when, on_task, enter, exit, need_clock, omp_timer}
use otf_cpt.Openmp.Returns.Valid.{
  extent_of, links_of, IsTask, AreLinked, IsListed-map, IsListed-same, IsValid, Begun,
}
use otf_cpt.Openmp.Returns.Ran.{Ran, Ran-some, Ran-imp, Ran-bind}
use otf_cpt.Openmp.Returns.Primitives.{Kept, Kept-trans, Quiet, enter-Quiet, exit-Quiet}
use otf_cpt.Openmp.Returns.Clocks.{need_clock-Quiet}

module _ {M : Type 0} ⦃metric : Metric M⦄ where
  pub record Good (t : ℕ) (w : World M) : Type 0 where
    pub valid : IsValid w
    pub begun : Begun t w

  -- The action returns, in a good state.
  abbrev pub Ends : {A : Type 0} → ℕ → Option (A × World M) → Type 0
  Ends t r = Ran (λ a w. Good t w) r

  pub Good-Kept : {t : ℕ} {w w' : World M} → Good t w → Kept t w w' → Good t w'
  Good-Kept g k = record {
    valid = record {
      timed = k.timed;
      linked = subst AreLinked (sym k.objects) g.valid.linked;
      listed = IsListed-map k.keeps k.lists.0 k.lists.1 g.valid.listed;
    };
    begun = k.begun;
  }

  -- A block that begins with a quiet action.
  pub Quiet-first :
      {A : Type 0} {t : ℕ} (Q : A → World M → Type 0) (m : Act M (Unit {0}))
      (f : Unit {0} → Act M A) (w : World M)
      → Quiet t m
      → Good t w
      → ((w' : World M) → Kept t w w' → Good t w' → Ran Q (f tt w'))
      → Ran Q ((m >>= f) w)
  Quiet-first {t = t} Q m f w q g rest =
      Ran-bind (λ u w'. Kept t w w') Q m f w (q w g.valid.timed g.begun)
        (λ u w' k. rest w' k (Good-Kept g k))

  -- A block that ends with one.
  pub Quiet-last :
      {t : ℕ} (m : Act M (Unit {0})) (w : World M) → Quiet t m → Good t w → Ends t (m w)
  Quiet-last {t} m w q g =
      Ran-imp (λ u w'. Kept t w w') _ (λ u w' k. Good-Kept g k) (q w g.valid.timed g.begun)

  -- The same, where what the action has left alone matters.
  pub Quiet-end :
      {t : ℕ} (Q : World M → Type 0) (m : Act M (Unit {0})) (w : World M)
      → Quiet t m
      → Good t w
      → ((w' : World M) → Kept t w w' → Q w')
      → Ran (λ u w'. Good t w' × Q w') (m w)
  Quiet-end {t} Q m w q g rest =
      Ran-imp (λ u w'. Kept t w w') _ (λ u w' k. (Good-Kept g k, rest w' k))
        (q w g.valid.timed g.begun)

  -- A block that begins with an action of its own.
  pub then-Good :
      {A B : Type 0} {t : ℕ} (m : Act M A) (f : A → Act M B) (w : World M)
      → Ends t (m w)
      → ((a : A) (w' : World M) → Good t w' → Ends t (f a w'))
      → Ends t ((m >>= f) w)
  then-Good m f w r rest = Ran-bind _ _ m f w r rest

  pub when-Ends :
      {t : ℕ} (b : Bool) (m : Act M (Unit {0})) (w : World M)
      → Good t w
      → Ends t (m w)
      → Ends t (when b m w)
  when-Ends true m w g r = r
  when-Ends false m w g r = Ran-some _ tt w g

  pub objects-Good :
      {t : ℕ} {w : World M} (o : Objects)
      → AreLinked o
      → Good t w
      → Good t (record w { objects = o })
  objects-Good o l g = record {
    valid = record {
      timed = record { threads = g.valid.timed.threads; syncs = g.valid.timed.syncs };
      linked = l;
      listed = IsListed-same refl refl refl refl g.valid.listed;
    };
    begun = record { clock = g.begun.clock; counters = g.begun.counters };
  }

  -- A write to a task keeps the state good if what the task refers to still exists.
  pub on_task-Good :
      {t : ℕ} (i : ℕ) (d : TaskData) (w : World M)
      → IsTask (extent_of w.objects) i (links_of d)
      → Good t w
      → Good t (on_task i (λ e. d) w)
  on_task-Good i d w h g =
      let l = g.valid.linked in
      objects-Good _
        (record {
          task_pool = l.task_pool;
          team_pool = l.team_pool;
          group_pool = l.group_pool;
          depend_pool = l.depend_pool;
          tasks =
              update-Each (λ j d. IsTask (extent_of w.objects) j (links_of d)) w.tasks i d h
                (λ j n. l.tasks j);
          groups = l.groups;
        })
        g

  -- A write to other members of a task.
  pub on_flags-Good :
      {t : ℕ} (i : ℕ) (d : TaskData) (w : World M)
      → links_of d ≡ links_of (w.tasks i)
      → Good t w
      → Good t (on_task i (λ e. d) w)
  on_flags-Good i d w e g =
      on_task-Good i d w (subst (IsTask (extent_of w.objects) i) (sym e) (g.valid.linked.tasks i)) g

  pub omp_timer-Ends :
      {t : ℕ} (m : Act M (Unit {0})) (w : World M)
      → Good t w
      → ((w' : World M) → Kept t w w' → Good t w' → Ends t (m w'))
      → Ends t (omp_timer t m w)
  unfolding omp_timer
  omp_timer-Ends {t} m w g body =
      Quiet-first _ (need_clock t false) _ w (need_clock-Quiet t false) g λ w₁ k₁ g₁.
        Quiet-first _ (enter t state_omp) _ w₁ (enter-Quiet t state_omp) g₁ λ w₂ k₂ g₂.
          then-Good m _ w₂ (body w₂ (Kept-trans k₁ k₂) g₂)
            λ u w₃ g₃. Quiet-last (exit t true) w₃ (exit-Quiet t true) g₃
