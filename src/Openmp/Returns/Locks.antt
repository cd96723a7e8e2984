-- ===== src/Openmp/Returns/Locks.antt =====
-- The callbacks for locks that are acquired and released, src/ompt-critical.cpp.
use otf_cpt.Common.{
  ℕ, ◌≡◌, refl, ◌∙◌, Option, some, Bool, true, false, update_self, Option-cases, inl, inr, ap,
}
use otf_cpt.Clock.Metric.{Metric}
use otf_cpt.Openmp.Locks.{need_lock, lock_mutex, mutex_acquired, unlock, mutex_released}
use otf_cpt.Tool.World.{World, lock_clock}
use otf_cpt.Tool.Action.{exit, release, acquire}
use otf_cpt.Openmp.Returns.Valid.{IsListed-same}
use otf_cpt.Openmp.Returns.Ran.{Ran, Ran-some, Ran-bind, Ran-deref}
use otf_cpt.Openmp.Returns.Primitives.{exit-Quiet}
use otf_cpt.Openmp.Returns.Clocks.{release-Quiet, acquire-Quiet}
use otf_cpt.Openmp.Returns.Good.{Good, Ends, Quiet-first, Quiet-last, then-Good, omp_timer-Ends}

module _ {M : Type 0} ⦃metric : Metric M⦄ where
  locks-Good :
      {t : ℕ} {w : World M} (held : ℕ → Option Bool)
      → Good t w
      → Good t (record w { lock_held = held })
  locks-Good held g = record {
    valid = record {
      timed = record { threads = g.valid.timed.threads; syncs = g.valid.timed.syncs };
      linked = g.valid.linked;
      listed = IsListed-same refl refl refl refl g.valid.listed;
    };
    begun = record { clock = g.begun.clock; counters = g.begun.counters };
  }

  need_lock-Free :
      {t : ℕ} (l : ℕ) (w : World M)
      → ¬ (w.lock_held l ≡ some true)
      → Good t w
      → Ran (λ u w'. Good t w' × (w'.lock_held l ≡ some false)) (need_lock l w)
  unfolding need_lock
  need_lock-Free {t} l w free g = elim (Option-cases (w.lock_held l)) [
    | inl e ↦ rw (e, need_lock) (Ran-some _ tt _ (locks-Good _ g, update_self w.lock_held l _))
    | inr (true, e) ↦ absurd (free e)
    | inr (false, e) ↦ rw (e, need_lock) (Ran-some _ tt w (g, e))
  ]

  pub mutex_acquired-Ends :
      {t : ℕ} (l : ℕ) (w : World M)
      → ¬ (w.lock_held l ≡ some true)
      → Good t w
      → Ends t (mutex_acquired t l w)
  unfolding mutex_acquired lock_mutex
  mutex_acquired-Ends {t} l w free g =
      Ran-bind _ _ (need_lock l) _ w (need_lock-Free l w free g) λ u w₁ (g₁, e).
        then-Good (lock_mutex l) _ w₁ (rw (e, lock_mutex) (Ran-some _ tt _ (locks-Good _ g₁)))
          λ u w₂ g₂.
            Quiet-first _ (acquire t (lock_clock l)) _ w₂ (acquire-Quiet t _) g₂
              λ w₃ k₃ g₃. Quiet-last (exit t true) w₃ (exit-Quiet t true) g₃

  unlock-Ends :
      {t : ℕ} (l : ℕ) (w : World M)
      → (held : Bool) × (w.lock_held l ≡ some held)
      → Good t w
      → Ends t (unlock t l w)
  unfolding unlock
  unlock-Ends {t} l w (held, e) g = Ran-deref _ (w.lock_held l) held _ w e (
      Quiet-first _ (release t (lock_clock l)) _ w (release-Quiet t _) g
        λ w₁ k₁ g₁. Ran-some _ tt _ (locks-Good _ g₁))

  pub mutex_released-Ends :
      {t : ℕ} (l : ℕ) (w : World M)
      → (held : Bool) × (w.lock_held l ≡ some held)
      → Good t w
      → Ends t (mutex_released t l w)
  unfolding mutex_released
  mutex_released-Ends {t} l w (held, e) g =
      omp_timer-Ends (unlock t l) w g
        λ w₁ k₁ g₁. unlock-Ends l w₁ (held, ap (λ (f : ℕ → Option Bool). f l) k₁.locks ∙ e) g₁
