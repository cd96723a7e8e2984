-- ===== src/Openmp/Returns/Begin.antt =====
-- The first callback of a thread, `ompt_tsan_thread_begin` of src/ompt-critical.cpp.
use otf_cpt.Common.{
  ℕ, suc, ◌≡◌, refl, some, Bool, true, not, update_self, Option-cases, inl, inr, arith, List, [],
  ◌∷◌, ◌++◌, All,
}
use otf_cpt.Common.Int.{pos}
use otf_cpt.Clock.State.{state_omp}
use otf_cpt.Clock.Metric.{Metric}
use otf_cpt.Clock.Thread.{new_clock}
use otf_cpt.Clock.Ordered.{new_clock-AreOrdered}
use otf_cpt.Clock.System.{IsThread}
use otf_cpt.Openmp.Threads.{thread_begin}
use otf_cpt.Tool.World.{World, new_counts}
use otf_cpt.Tool.Action.{when, enter, enter_at, need_clock}
use otf_cpt.Openmp.Returns.Valid.{All-imp, IsListed, IsListed-map, IsValid, Begun}
use otf_cpt.Openmp.Returns.Ran.{Ran-some}
use otf_cpt.Openmp.Returns.Primitives.{
  set_clock-Begun, enter-Quiet, enter_at-Quiet, set_clock-IsTimed,
}
use otf_cpt.Openmp.Returns.Clocks.{set_counts-Begun, when-Quiet}
use otf_cpt.Openmp.Returns.Good.{Ends, Quiet-first, Quiet-last, then-Good}

All-snoc : {A : Type 0} (P : A → Type 0) {a : A} (l : List A) → All P l → P a → All P (l ++ a ∷ [])
All-snoc P [] all p = (p, tt)
All-snoc P (b ∷ l) all p = (all.0, All-snoc P l all.1 p)

module _ {M : Type 0} ⦃metric : Metric M⦄ where
  pub new_clock-IsThread : (id : ℕ) (omp : Bool) → IsThread {M = M} (new_clock id (pos 0) omp)
  unfolding new_clock
  new_clock-IsThread id omp = record {
    stack = refl;
    ordered = new_clock-AreOrdered id (pos 0) omp (omega arith);
  }

  need_clock-Ends :
      {t : ℕ} (w : World M)
      → IsValid w
      → (c : _) × (w.counts t ≡ some c)
      → Ends t (need_clock t true w)
  unfolding need_clock
  need_clock-Ends {t} w v c = elim (Option-cases (w.threads t)) [
    | inr (tc, e) ↦
        rw (e, need_clock)
          (Ran-some _ tt w (record { valid = v; begun = record { clock = (tc, e); counters = c } }))
    | inl e ↦
        rw (e, need_clock)
          (Ran-some _ tt _ (record {
            valid = record {
              timed =
                  set_clock-IsTimed t (new_clock w.next_id (pos 0) true)
                    (record w { next_id = suc w.next_id }) (new_clock-IsThread w.next_id true)
                    (record { threads = v.timed.threads; syncs = v.timed.syncs });
              linked = v.linked;
              listed =
                  IsListed-map
                    (λ u b.
                      set_clock-Begun t u (new_clock w.next_id (pos 0) true)
                        (record w { next_id = suc w.next_id })
                        (record { clock = b.clock; counters = b.counters }))
                    refl refl v.listed;
            };
            begun = record { clock = (_, update_self w.threads t _); counters = c };
          }))
  ]

  registered :
      {t : ℕ} (w : World M)
      → Begun t w
      → IsListed w
      → IsListed (record w {
        thread_clocks = w.thread_clocks ++ t ∷ [];
        thread_counts = w.thread_counts ++ t ∷ [];
      })
  registered {t} w b l =
      let same : (u : ℕ)
          → Begun u w
          → Begun u (record w {
            thread_clocks = w.thread_clocks ++ t ∷ [];
            thread_counts = w.thread_counts ++ t ∷ [];
          }) =
        λ u b. record { clock = b.clock; counters = b.counters } in
      record {
        clocks = All-snoc _ w.thread_clocks (All-imp same w.thread_clocks l.clocks) (same t b);
        counters = All-snoc _ w.thread_counts (All-imp same w.thread_counts l.counters) (same t b);
      }

  pub thread_begin-Ends :
      (t : ℕ) (is_initial : Bool) (w : World M) → IsValid w → Ends t (thread_begin t is_initial w)
  unfolding thread_begin
  thread_begin-Ends t is_initial w v =
      then-Good (need_clock t true) _ _
        (need_clock-Ends _
          (record {
            timed = record { threads = v.timed.threads; syncs = v.timed.syncs };
            linked = v.linked;
            listed = IsListed-map (λ u b. set_counts-Begun t u new_counts w b) refl refl v.listed;
          })
          (new_counts, update_self w.counts t _))
        λ u w₁ g₁.
          Quiet-first _ (when is_initial (enter t state_omp)) _ _
            (when-Quiet is_initial _ (enter-Quiet t state_omp))
            (record {
              valid = record {
                timed = record { threads = g₁.valid.timed.threads; syncs = g₁.valid.timed.syncs };
                linked = g₁.valid.linked;
                listed = registered w₁ g₁.begun g₁.valid.listed;
              };
              begun = record { clock = g₁.begun.clock; counters = g₁.begun.counters };
            })
            λ w₂ k₂ g₂.
              Quiet-last (when (not is_initial) (enter_at t w₁.start_programm_time state_omp)) w₂
                (when-Quiet (not is_initial) _ (enter_at-Quiet t _ state_omp)) g₂
