-- ===== src/Openmp/Returns/Measure.antt =====
-- The loops of `finishMeasurement` over the threads, src/critical-core.cpp.
use otf_cpt.Common.{ℕ, ◌≡◌, refl, sym, ap, subst, ◌∙◌, some, not, List, [], ◌∷◌, All, update}
use otf_cpt.Clock.State.{state_init, same_state}
use otf_cpt.Clock.Metric.{Metric}
use otf_cpt.Clock.Ordered.{AreOrdered}
use otf_cpt.Tool.World.{World}
use otf_cpt.Tool.Action.{when, set, current}
use otf_cpt.Tool.Measure.{
  add, add_counts, add_all_counts, Totals, no_totals, thread_times, gather_thread, gather,
  gather_all,
}
use otf_cpt.Openmp.Returns.Valid.{AreLinked, IsTimed, IsListed-same, Begun, All-imp}
use otf_cpt.Openmp.Returns.Ran.{Ran, Ran-some, Ran-imp, Ran-bind, Ran-deref}
use otf_cpt.Openmp.Returns.Primitives.{Kept, Kept-trans, set-Quiet}
use otf_cpt.Openmp.Returns.Clocks.{when-Quiet, current-Quiet, set_counts-Begun}
use otf_cpt.Openmp.Returns.Good.{Good, Ends, Good-Kept}

module _ {M : Type 0} ⦃metric : Metric M⦄ where
  -- A state that differs only in members of which nothing is required.
  pub same-Good :
      {t : ℕ} {w w' : World M}
      → w'.threads ≡ w.threads
      → w'.syncs ≡ w.syncs
      → w'.counts ≡ w.counts
      → w'.objects ≡ w.objects
      → w'.thread_clocks ≡ w.thread_clocks
      → w'.thread_counts ≡ w.thread_counts
      → Good t w
      → Good t w'
  same-Good {t} a b c d p q g = record {
    valid = record {
      timed = record {
        threads = λ u tc e. g.valid.timed.threads u tc (ap (λ f. f u) (sym a) ∙ e);
        syncs = λ r. subst (λ f. AreOrdered (f r).clocks) (sym b) (g.valid.timed.syncs r);
      };
      linked = subst AreLinked (sym d) g.valid.linked;
      listed = IsListed-same a c p q g.valid.listed;
    };
    begun = record {
      clock = (g.begun.clock.0, ap (λ f. f t) a ∙ g.begun.clock.1);
      counters = (g.begun.counters.0, ap (λ f. f t) c ∙ g.begun.counters.1);
    };
  }

  -- What an action on another thread means for this one.
  Kept-for : {t u : ℕ} {w w' : World M} → Begun t w → Kept u w w' → Kept t w w'
  Kept-for {t} b k = record {
    objects = k.objects;
    locks = k.locks;
    running = k.running;
    timed = k.timed;
    begun = k.keeps t b;
    keeps = k.keeps;
    lists = k.lists;
  }

  Kept-refl : {t : ℕ} {w : World M} → IsTimed w → Begun t w → Kept t w w
  Kept-refl v b = record {
    objects = refl;
    locks = refl;
    running = refl;
    timed = v;
    begun = b;
    keeps = λ u b. b;
    lists = (refl, refl);
  }

  thread_times-Kept :
      {t : ℕ} (w : World M) → IsTimed w → Begun t w → Ran (λ s w'. Kept t w w') (thread_times t w)
  unfolding thread_times
  thread_times-Kept {t} w v b =
      Ran-deref _ (w.threads t) b.clock.0 _ w b.clock.1 (Ran-some _ _ w (Kept-refl v b))

  gather_thread-Kept :
      {t : ℕ} (u : ℕ) (s : Totals) (w : World M)
      → IsTimed w
      → Begun t w
      → Begun u w
      → Ran (λ s' w'. Kept t w w') (gather_thread u s w)
  unfolding gather_thread
  gather_thread-Kept {t} u s w v b c =
      let (state, e) = current-Quiet u w v c in
      Ran-bind (λ a w'. w' ≡ w) _ (current u) _ w
        (record { value = state; after = w; returned = e; post = refl })
        λ a w₀ same.
          Ran-bind (λ x w'. Kept u w w') _
            (when (not (same_state a state_init)) (set u w₀.end_programm_time state_init)) _ w₀
            (subst
              (λ v.
                Ran (λ x w'. Kept u w w')
                  (when (not (same_state a state_init)) (set u v.end_programm_time state_init) v))
              (sym same) (when-Quiet (not (same_state a state_init)) _ (set-Quiet u _) w v c))
            λ x w₁ k.
              Ran-bind (λ x w'. Kept u w₁ w') _ (thread_times u) _ w₁
                (thread_times-Kept w₁ k.timed k.begun)
                λ times w₂ l. Ran-some _ _ w₂ (Kept-for b (Kept-trans k l))

  gather-Kept :
      {t : ℕ} (l : List ℕ) (s : Totals) (w : World M)
      → IsTimed w
      → Begun t w
      → All (λ u. Begun u w) l
      → Ran (λ s' w'. Kept t w w') (gather l s w)
  unfolding gather
  gather-Kept [] s w v b all = Ran-some _ s w (Kept-refl v b)
  gather-Kept {t} (u ∷ l) s w v b all =
      Ran-bind (λ s' w'. Kept t w w') _ (gather_thread u s) _ w (gather_thread-Kept u s w v b all.0)
        λ s' w₁ k.
          Ran-imp (λ s' w'. Kept t w₁ w') _ (λ s' w' j. Kept-trans k j)
            (gather-Kept l s' w₁ k.timed k.begun (All-imp k.keeps l all.1))

  add_counts-Kept :
      {t : ℕ} (first : ℕ) (l : List ℕ) (w : World M)
      → IsTimed w
      → Begun t w
      → Begun first w
      → All (λ u. Begun u w) l
      → Ran (λ s w'. Kept t w w') (add_counts first l w)
  unfolding add_counts
  add_counts-Kept first [] w v b c all = Ran-some _ tt w (Kept-refl v b)
  add_counts-Kept {t} first (u ∷ l) w v b c all =
      Ran-deref _ (w.counts first) c.counters.0 _ w c.counters.1 (
        Ran-deref _ (w.counts u) all.0.counters.0 _ w all.0.counters.1 (
          let total = add c.counters.0 all.0.counters.0 in
          let k : Kept t w (record w { counts = update w.counts first (some total) }) = record {
            objects = refl;
            locks = refl;
            running = refl;
            timed = record { threads = v.threads; syncs = v.syncs };
            begun = set_counts-Begun first t total w b;
            keeps = λ u b. set_counts-Begun first u total w b;
            lists = (refl, refl);
          } in
          Ran-imp (λ s w'. Kept t _ w') _ (λ s w' j. Kept-trans k j)
            (add_counts-Kept first l _ k.timed k.begun (k.keeps first c)
              (All-imp k.keeps l all.1))))

  add_all_counts-Kept :
      {t : ℕ} (l : List ℕ) (w : World M)
      → IsTimed w
      → Begun t w
      → All (λ u. Begun u w) l
      → Ran (λ s w'. Kept t w w') (add_all_counts l w)
  unfolding add_all_counts
  add_all_counts-Kept [] w v b all = Ran-some _ tt w (Kept-refl v b)
  add_all_counts-Kept (u ∷ l) w v b all = add_counts-Kept u l w v b all.0 all.1

  pub gather_all-Ends :
      {t : ℕ} (l : List ℕ) (w : World M)
      → All (λ u. Begun u w) l
      → Good t w
      → Ends t (gather_all t l w)
  unfolding gather_all
  gather_all-Ends {t} [] w all g =
      Ran-bind (λ x w'. Kept t w w') _ (thread_times t) _ w
        (thread_times-Kept w g.valid.timed g.begun) λ times w₁ k. Ran-some _ _ w₁ (Good-Kept g k)
  gather_all-Ends {t} (u ∷ l) w all g =
      Ran-bind (λ x w'. Kept t w w') _ (gather (u ∷ l) no_totals) _ w
        (gather-Kept (u ∷ l) no_totals w g.valid.timed g.begun all)
        λ s w₁ k.
          let g₁ = Good-Kept g k in
          Ran-bind (λ x w'. Kept t w₁ w') _ (add_all_counts w₁.thread_counts) _ w₁
            (add_all_counts-Kept w₁.thread_counts w₁ k.timed k.begun g₁.valid.listed.counters)
            λ u w₂ j. Ran-some _ _ w₂ (Good-Kept g₁ j)
