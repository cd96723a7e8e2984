-- ===== src/Openmp/Order/Ring.antt =====
-- The three clocks of a team's barriers, src/ompt-critical.cpp, and the reset of the next one.
use otf_cpt.Common.{ℕ, ◌+◌, ◌%◌, ◌≡◌, ◌≢◌, refl, sym, ◌∙◌, ap, subst, some, true, ite}
use otf_cpt.Common.Int.{pos, is_zero}
use otf_cpt.Clock.CpClocks.{reset}
use otf_cpt.Clock.State.{
  ClockType, clock_useful, clock_ompi, clock_oomp, clock_ogpu, state_init, state_omp,
}
use otf_cpt.Clock.Metric.{Metric}
use otf_cpt.Clock.Sync.{SyncClock, clock_reset}
use otf_cpt.Openmp.Regions.{barrier_begin}
use otf_cpt.Openmp.Returns.Clocks.{release-Quiet}
use otf_cpt.Openmp.Returns.Good.{Good, on_flags-Good, Quiet-first}
use otf_cpt.Openmp.Returns.Primitives.{enter-Quiet}
use otf_cpt.Openmp.Returns.Ran.{Ran, Ran-some, Ran-deref}
use otf_cpt.Openmp.Returns.Regions.{own_task}
use otf_cpt.Tool.World.{World, TaskData, SyncRef, SyncRef-discrete, barrier}
use otf_cpt.Tool.Action.{when, enter, release, clear}

module _ {M : Type 0} ⦃metric : Metric M⦄ where
  -- Nobody has released into the clock since it was reset.
  pub record IsFresh (sc : SyncClock M) : Type 0 where
    pub state : sc.sync_state ≡ state_init
    pub clocks : (i : ClockType) → i ≢ clock_ogpu → sc.clocks i ≡ reset (pos 0)

  reset-IsFresh : (sc : SyncClock M) → IsFresh (clock_reset true sc)
  unfolding clock_reset
  reset-IsFresh sc = record { state = refl; clocks = fresh }
    where
      fresh : (i : ClockType) → i ≢ clock_ogpu → (clock_reset true sc).clocks i ≡ reset (pos 0)
      fresh clock_useful n = refl
      fresh clock_ompi n = refl
      fresh clock_oomp n = refl
      fresh clock_ogpu n = absurd (n refl)

  clear-IsFresh :
      (r : SyncRef) (w : World M)
      → w.running ≡ true
      → Ran (λ u w'. IsFresh (w'.syncs r)) (clear r w)
  unfolding clear
  clear-IsFresh r w on =
      Ran-some _ tt _
        (elim (SyncRef-discrete r r)
          as (λ d. IsFresh (ite d (clock_reset w.running (w.syncs r)) (w.syncs r))) [
            | yes e ↦ rw on (reset-IsFresh (w.syncs r))
            | no n ↦ absurd (n refl)
          ])

  -- When the thread with number 0 begins a barrier of its team, it leaves the clock of the next barrier
  -- as one that nobody has released into, whatever was released into it before.
  pub barrier_begin-IsFresh :
      (t i x : ℕ) (w : World M)
      → Good t w
      → w.running ≡ true
      → (w.tasks i).team ≡ some x
      → (w.tasks i).thread_num ≡ pos 0
      → Ran
          (λ u w'. IsFresh (w'.syncs (barrier x (((w.tasks i).barrier_index + 1) % 3))))
          (barrier_begin t i w)
  unfolding barrier_begin
  barrier_begin-IsFresh t i x w g on team zero_num =
      let g₁ = on_flags-Good i (record (w.tasks i) { in_barrier = true }) w refl g in
      Quiet-first _ (enter t state_omp) _ _ (enter-Quiet t state_omp) g₁ λ w₂ k₂ g₂.
        let own = own_task w k₂ in
        Ran-deref _ (w₂.tasks i).team x _ w₂ (ap (λ d. d.team) own ∙ team) (
          Quiet-first _ (release t (barrier x (w₂.tasks i).barrier_index)) _ w₂ (release-Quiet t _)
            g₂
            λ w₃ k₃ g₃.
              subst
                (λ (d : TaskData).
                  Ran (λ u w'. IsFresh (w'.syncs (barrier x (((w.tasks i).barrier_index + 1) % 3))))
                    (when (is_zero d.thread_num) (clear (barrier x ((d.barrier_index + 1) % 3)))
                      w₃))
                (sym own) (rw zero_num (clear-IsFresh _ w₃ (k₃.running ∙ k₂.running ∙ on))))
