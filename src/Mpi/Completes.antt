-- ===== src/Mpi/Completes.antt =====
-- The clocks that arrive when a request completes.
use otf_cpt.Common.{ℕ, ◌≡◌, refl, true, false, some, ◌==◌, if◌then◌else◌, Bool-cases, inl, inr}
use otf_cpt.Clock.Message.{IpcData, mpi_happens_before, mpi_happens_after}
use otf_cpt.Clock.Metric.{Metric}
use otf_cpt.Mpi.Rank.{Reduction, bcast, allreduce, reduce, Library, Rank, log, post, wait_all}
use otf_cpt.Mpi.Blocking.{is_exact, take_up, receive}
use otf_cpt.Mpi.Pending.{
  new_data, init, start_with, isend_begin, isend_end, isend, irecv_begin, irecv_end, irecv,
  wait_pending, complete_wild, complete_hb, complete, icoll, ibcast, iallreduce, ireduce,
  icoll_post, icoll_init,
}
use otf_cpt.Mpi.Carries.{
  Covers, last_posted, combined-Covers, delivered-Covers, contributes, collects,
}

module _ {M : Type 0} ⦃metric : Metric M⦄ where
  -- The number of the operation that receives for the tool: an exact receive is posted at once, and one
  -- with a wildcard at the completion.
  unfoldable pub receives : Library → (src tag : ℕ) → (b c : Rank M) → ℕ
  receives library src tag b c = if is_exact library src tag then b.posted else c.posted

  isend-posts :
      (library : Library) (idle : IpcData) (dest tag comm : ℕ) (a : Rank M)
      → a.running ≡ true
      → (dest == library.proc_null) ≡ false
      → last_posted (isend library idle dest tag comm a).1.calls ≡ some (mpi_happens_before a.clock)
  unfolding isend isend_begin isend_end start_with log post last_posted
  isend-posts library idle dest tag comm a run e = rw (run, e) refl

  irecv-takes_up :
      (library : Library) (idle : IpcData) (src tag comm : ℕ) (status : ℕ × ℕ) (b c : Rank M)
      → b.running ≡ true
      → c.running ≡ true
      → (src == library.proc_null) ≡ false
      → (complete library idle (irecv library idle src tag comm b).0 status c).clock
        ≡ mpi_happens_after true (library.delivered (receives library src tag b c)) c.clock
  unfolding irecv irecv_begin irecv_end start_with complete complete_wild complete_hb wait_pending
      wait_all receive take_up log post new_data init receives
  irecv-takes_up library idle src tag comm (source, tag') b c run_b run_c e =
      elim (Bool-cases (is_exact library src tag)) [
        | inl x ↦ rw (run_b, run_c, e, x) refl
        | inr x ↦ rw (run_b, run_c, e, x) refl
      ]

  icoll-posts :
      (library : Library) (idle : IpcData) (kind : Reduction) (comm root : ℕ) (a : Rank M)
      → a.running ≡ true
      → contributes kind (library.rank comm) root ≡ true
      → last_posted (icoll library idle kind comm root a).1.calls
        ≡ some (mpi_happens_before a.clock)
  unfolding icoll ibcast iallreduce ireduce icoll_post icoll_init start_with log post last_posted
      contributes
  icoll-posts library idle bcast comm root a run e = rw (run, e) refl
  icoll-posts library idle allreduce comm root a run e = rw run refl
  icoll-posts library idle reduce comm root a run e = rw run refl

  icoll-takes_up :
      (library : Library) (idle : IpcData) (kind : Reduction) (comm root : ℕ) (status : ℕ × ℕ)
      (b c : Rank M)
      → b.running ≡ true
      → c.running ≡ true
      → collects kind (library.rank comm) root ≡ true
      → (complete library idle (icoll library idle kind comm root b).0 status c).clock
        ≡ mpi_happens_after true (library.delivered b.posted) c.clock
  unfolding icoll ibcast iallreduce ireduce icoll_post icoll_init start_with complete complete_hb
      wait_pending wait_all take_up log post new_data init collects
  icoll-takes_up library idle bcast comm root status b c run_b run_c e = rw (run_b, run_c) refl
  icoll-takes_up library idle allreduce comm root status b c run_b run_c e = rw (run_b, run_c) refl
  icoll-takes_up library idle reduce comm root status b c run_b run_c e = rw (run_b, run_c, e) refl

  -- A running process starts a non-blocking send, and a running process starts a non-blocking receive,
  -- with or without wildcards, which completes in a later state, in which the tool is running. If the
  -- library delivers to the receive of the tool the values that the tool posted with the send, then the
  -- critical path of the receiver is after the completion no shorter than that of the sender at
  -- the send, in each of the three clocks.
  pub request-Covers :
      (at_a at_b : Library) (idle : IpcData) (dest tag comm src tag' comm' : ℕ) (status : ℕ × ℕ)
      (a b c : Rank M)
      → a.running ≡ true
      → b.running ≡ true
      → c.running ≡ true
      → (dest == at_a.proc_null) ≡ false
      → (src == at_b.proc_null) ≡ false
      → last_posted (isend at_a idle dest tag comm a).1.calls
        ≡ some (at_b.delivered (receives at_b src tag' b c))
      → Covers (mpi_happens_before a.clock) (
          mpi_happens_before
            (complete at_b idle (irecv at_b idle src tag' comm' b).0 status c).clock)
  request-Covers at_a at_b idle dest tag comm src tag' comm' status a b c run_a run_b run_c to from
        e =
      delivered-Covers _ _ _ _ _ (isend-posts at_a idle dest tag comm a run_a to) e
        (irecv-takes_up at_b idle src tag' comm' status b c run_b run_c from)

  -- Two running processes start a non-blocking broadcast or reduction, one that passes values on and one
  -- that takes them up, whose request completes in a later state, in which the tool is running. If what
  -- the library delivers to the second covers what the tool posted at the first, as a copy or a
  -- maximum does, then the critical path of the second is after the completion no shorter than that of
  -- the first at the start, in each of the three clocks.
  pub collective-Covers :
      (at_a at_b : Library) (idle : IpcData) (kind : Reduction) (comm root comm' root' : ℕ)
      (status : ℕ × ℕ) (a b c : Rank M)
      → a.running ≡ true
      → b.running ≡ true
      → c.running ≡ true
      → contributes kind (at_a.rank comm) root ≡ true
      → collects kind (at_b.rank comm') root' ≡ true
      → ((v : IpcData)
          → last_posted (icoll at_a idle kind comm root a).1.calls ≡ some v
          → Covers v (at_b.delivered b.posted))
      → Covers (mpi_happens_before a.clock) (
          mpi_happens_before
            (complete at_b idle (icoll at_b idle kind comm' root' b).0 status c).clock)
  collective-Covers at_a at_b idle kind comm root comm' root' status a b c run_a run_b run_c gives
        takes h =
      combined-Covers _ _ _ _ _ (icoll-posts at_a idle kind comm root a run_a gives) h
        (icoll-takes_up at_b idle kind comm' root' status b c run_b run_c takes)
