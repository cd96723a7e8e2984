-- ===== src/Mpi/Exchanged.antt =====
-- The clocks that two processes exchange in a non-blocking combined send and receive.
use otf_cpt.Common.{ℕ, ◌≡◌, refl, true, false, some, ◌==◌, Bool-cases, inl, inr}
use otf_cpt.Clock.Message.{IpcData, mpi_happens_before, mpi_happens_after}
use otf_cpt.Clock.Metric.{Metric}
use otf_cpt.Mpi.Rank.{Library, Rank, log, post, wait_all}
use otf_cpt.Mpi.Blocking.{take_up}
use otf_cpt.Mpi.Pending.{
  new_data, init, start_with, isendrecv_begin, isendrecv_end, isendrecv, wait_pending, complete_hb,
  complete,
}
use otf_cpt.Mpi.Carries.{Covers, last_posted, delivered-Covers}

module _ {M : Type 0} ⦃metric : Metric M⦄ where
  isendrecv-posts :
      (library : Library) (idle : IpcData) (dest stag src rtag comm : ℕ) (a : Rank M)
      → a.running ≡ true
      → (dest == library.proc_null) ≡ false
      → last_posted (isendrecv library idle dest stag src rtag comm a).1.calls
        ≡ some (mpi_happens_before a.clock)
  unfolding isendrecv isendrecv_begin isendrecv_end start_with log post last_posted
  isendrecv-posts library idle dest stag src rtag comm a run e =
      elim (Bool-cases (src == library.proc_null)) [
        | inl x ↦ rw (run, e, x) refl
        | inr x ↦ rw (run, e, x) refl
      ]

  isendrecv-takes_up :
      (library : Library) (idle : IpcData) (dest stag src rtag comm : ℕ) (status : ℕ × ℕ)
      (b c : Rank M)
      → b.running ≡ true
      → c.running ≡ true
      → (src == library.proc_null) ≡ false
      → (complete library idle (isendrecv library idle dest stag src rtag comm b).0 status c).clock
        ≡ mpi_happens_after true (library.delivered b.posted) c.clock
  unfolding isendrecv isendrecv_begin isendrecv_end start_with complete complete_hb wait_pending
      wait_all take_up log post new_data init
  isendrecv-takes_up library idle dest stag src rtag comm status b c run_b run_c e =
      rw (run_b, e, run_c) refl

  -- Two running processes start a non-blocking combined send and receive, and the request of the second
  -- completes in a later state, in which the tool is running. If the first sends to a process, the second
  -- receives from one, and the library delivers to the operation of the tool at the second the values
  -- that the tool posted at the first, then the critical path of the second is after the completion no
  -- shorter than that of the first at the start, in each of the three clocks.
  pub exchanged-Covers :
      (at_a at_b : Library) (idle : IpcData) (dest stag src rtag comm : ℕ)
      (dest' stag' src' rtag' comm' : ℕ) (status : ℕ × ℕ) (a b c : Rank M)
      → a.running ≡ true
      → b.running ≡ true
      → c.running ≡ true
      → (dest == at_a.proc_null) ≡ false
      → (src' == at_b.proc_null) ≡ false
      → last_posted (isendrecv at_a idle dest stag src rtag comm a).1.calls
        ≡ some (at_b.delivered b.posted)
      → Covers (mpi_happens_before a.clock) (
          mpi_happens_before
            (complete at_b idle
              (isendrecv at_b idle dest' stag' src' rtag' comm' b).0
              status
              c).clock)
  exchanged-Covers at_a at_b idle dest stag src rtag comm dest' stag' src' rtag' comm' status a b c
        run_a run_b run_c to from e =
      delivered-Covers _ _ _ _ _ (isendrecv-posts at_a idle dest stag src rtag comm a run_a to) e
        (isendrecv-takes_up at_b idle dest' stag' src' rtag' comm' status b c run_b run_c from)
