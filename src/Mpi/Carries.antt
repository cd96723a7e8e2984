-- ===== src/Mpi/Carries.antt =====
-- The clocks that arrive with a message or a reduction.
use otf_cpt.Common.{
  ℕ, ◌≡◌, refl, sym, ◌∙◌, Bool, true, false, Option, none, some, List, [], ◌∷◌, ◌==◌, arith,
  Bool-cases, inl, inr,
}
use otf_cpt.Common.Int.{ℤ, ◌≤ℤ◌, max_ℤ_ge}
use otf_cpt.Clock.State.{clock_useful, clock_ompi, clock_oomp}
use otf_cpt.Clock.CpClocks.{CpClocks}
use otf_cpt.Clock.Message.{IpcData, mpi_happens_before, mpi_happens_after, raise, raise_all}
use otf_cpt.Clock.Metric.{Metric}
use otf_cpt.Clock.Thread.{ThreadClock}
use otf_cpt.Mpi.Rank.{
  Reduction, bcast, allreduce, reduce, Call, pmpi_isend, pmpi_icoll, pmpi_irecv, pmpi_recv,
  pmpi_isendrecv_replace, pmpi_wait, pmpi_send_init, pmpi_recv_init, pmpi_coll_init, pmpi_start,
  pmpi_cancel, app_send, app_recv, app_coll, Library, Rank, log, post, wait_all,
}
use otf_cpt.Mpi.Blocking.{
  posted_with, not_posted, take_up, send_begin, send_end, send, is_exact, recv_begin, receive,
  recv_end, recv, coll, coll_post, bcast_begin, bcast_end, allreduce_begin, allreduce_end,
  reduce_begin, reduce_end,
}

-- Each value is at least the other.
pub record Covers (v w : IpcData) : Type 0 where
  pub useful : v.useful ≤ℤ w.useful
  pub ompi : v.ompi ≤ℤ w.ompi
  pub oomp : v.oomp ≤ℤ w.oomp

pub Covers-trans : (u v w : IpcData) → Covers u v → Covers v w → Covers u w
Covers-trans u v w h k = record {
  useful = omega (arith, h.useful, k.useful);
  ompi = omega (arith, h.ompi, k.ompi);
  oomp = omega (arith, h.oomp, k.oomp);
}

-- Who passes values on in a reduction, and who takes them up.
unfoldable pub contributes : Reduction → ℕ → ℕ → Bool
contributes bcast rank root = root == rank
contributes allreduce rank root = true
contributes reduce rank root = true

unfoldable pub collects : Reduction → ℕ → ℕ → Bool
collects bcast rank root = true
collects allreduce rank root = true
collects reduce rank root = root == rank

-- The values that were posted last.
unfoldable pub last_posted : List Call → Option IpcData
last_posted [] = none
last_posted (pmpi_isend v c d t q ∷ r) = some v
last_posted (pmpi_icoll k v c root q ∷ r) = some v
last_posted (pmpi_isendrecv_replace v c d t s u q ∷ r) = some v
last_posted (pmpi_irecv c s t q ∷ r) = last_posted r
last_posted (pmpi_recv c s t q ∷ r) = last_posted r
last_posted (pmpi_start v q ∷ r) = some v
last_posted (pmpi_send_init c d t q ∷ r) = last_posted r
last_posted (pmpi_recv_init c s t q ∷ r) = last_posted r
last_posted (pmpi_coll_init k c root q ∷ r) = last_posted r
last_posted (pmpi_wait q ∷ r) = last_posted r
last_posted (pmpi_cancel q ∷ r) = last_posted r
last_posted (app_send c d t ∷ r) = last_posted r
last_posted (app_recv c s t ∷ r) = last_posted r
last_posted (app_coll k c root ∷ r) = last_posted r

pub some-path : {A : Type 0} {x y : A} → some x ≡ some y → x ≡ y
some-path e = ground (arith, e)

module _ {M : Type 0} ⦃metric : Metric M⦄ where
  raise-le : (v : ℤ) (c : CpClocks M) → v ≤ℤ metric.get_time (raise v c).critical
  unfolding raise
  raise-le v c =
      rw (metric.get_time-max_update c.critical (metric.reset v), metric.get_time-reset v)
        (max_ℤ_ge (metric.get_time c.critical) v).1

  -- What arrives is no more than the clocks afterwards.
  pub happens_after-Covers :
      (v : IpcData) (tc : ThreadClock M)
      → Covers v (mpi_happens_before (mpi_happens_after true v tc))
  unfolding mpi_happens_before mpi_happens_after raise_all
  happens_after-Covers v tc = record {
    useful = raise-le v.useful (tc.clocks clock_useful);
    ompi = raise-le v.ompi (tc.clocks clock_ompi);
    oomp = raise-le v.oomp (tc.clocks clock_oomp);
  }

  -- Values that were posted, and have arrived in a clock
  pub combined-Covers :
      (posted : Option IpcData) (v arrived : IpcData) (before after : ThreadClock M)
      → posted ≡ some v
      → ((u : IpcData) → posted ≡ some u → Covers u arrived)
      → after ≡ mpi_happens_after true arrived before
      → Covers v (mpi_happens_before after)
  combined-Covers posted v arrived before after p h e =
      rw e (Covers-trans _ _ _ (h v p) (happens_after-Covers arrived before))

  pub delivered-Covers :
      (posted : Option IpcData) (v arrived : IpcData) (before after : ThreadClock M)
      → posted ≡ some v
      → posted ≡ some arrived
      → after ≡ mpi_happens_after true arrived before
      → Covers v (mpi_happens_before after)
  delivered-Covers posted v arrived before after p q e =
      rw (some-path (sym p ∙ q), e) (happens_after-Covers arrived before)

  pub send-posts :
      (library : Library) (idle : IpcData) (dest tag comm : ℕ) (a : Rank M)
      → a.running ≡ true
      → (dest == library.proc_null) ≡ false
      → last_posted (send library idle dest tag comm a).calls ≡ some (mpi_happens_before a.clock)
  unfolding send send_begin send_end posted_with log post last_posted
  send-posts library idle dest tag comm a run e = rw (run, e) refl

  recv-takes_up :
      (library : Library) (idle : IpcData) (src tag comm : ℕ) (status : ℕ × ℕ) (b : Rank M)
      → b.running ≡ true
      → (src == library.proc_null) ≡ false
      → (recv library idle src tag comm status b).clock
        ≡ mpi_happens_after true (library.delivered b.posted) b.clock
  unfolding recv recv_begin recv_end receive take_up posted_with not_posted wait_all log post
  recv-takes_up library idle src tag comm (source, tag') b run e =
      elim (Bool-cases (is_exact library src tag)) [
        | inl x ↦ rw (run, e, x) refl
        | inr x ↦ rw (run, e, x) refl
      ]

  coll-posts :
      (library : Library) (idle : IpcData) (kind : Reduction) (comm root : ℕ) (a : Rank M)
      → a.running ≡ true
      → contributes kind (library.rank comm) root ≡ true
      → last_posted (coll library idle kind comm root a).calls ≡ some (mpi_happens_before a.clock)
  unfolding coll coll_post bcast_begin bcast_end allreduce_begin allreduce_end reduce_begin
      reduce_end take_up posted_with wait_all log post last_posted contributes
  coll-posts library idle bcast comm root a run e = rw (run, e) refl
  coll-posts library idle allreduce comm root a run e = rw run refl
  coll-posts library idle reduce comm root a run e = elim (Bool-cases (root == library.rank comm)) [
    | inl x ↦ rw (run, x) refl
    | inr x ↦ rw (run, x) refl
  ]

  coll-takes_up :
      (library : Library) (idle : IpcData) (kind : Reduction) (comm root : ℕ) (b : Rank M)
      → b.running ≡ true
      → collects kind (library.rank comm) root ≡ true
      → (coll library idle kind comm root b).clock
        ≡ mpi_happens_after true (library.delivered b.posted) b.clock
  unfolding coll coll_post bcast_begin bcast_end allreduce_begin allreduce_end reduce_begin
      reduce_end take_up posted_with wait_all log post collects
  coll-takes_up library idle bcast comm root b run e = rw run refl
  coll-takes_up library idle allreduce comm root b run e = rw run refl
  coll-takes_up library idle reduce comm root b run e = rw (run, e) refl

  -- A running process sends to a process, and a running process receives, with or without wildcards. If
  -- the library delivers to the receive of the tool the values that the tool posted with the send, then
  -- the critical path of the receiver is afterwards no shorter than that of the sender at the send, in
  -- each of the three clocks.
  pub message-Covers :
      (at_a at_b : Library) (idle : IpcData) (dest tag comm src tag' comm' : ℕ) (status : ℕ × ℕ)
      (a b : Rank M)
      → a.running ≡ true
      → b.running ≡ true
      → (dest == at_a.proc_null) ≡ false
      → (src == at_b.proc_null) ≡ false
      → last_posted (send at_a idle dest tag comm a).calls ≡ some (at_b.delivered b.posted)
      → Covers
          (mpi_happens_before a.clock)
          (mpi_happens_before (recv at_b idle src tag' comm' status b).clock)
  message-Covers at_a at_b idle dest tag comm src tag' comm' status a b run_a run_b to from e =
      delivered-Covers _ _ _ _ _ (send-posts at_a idle dest tag comm a run_a to) e
        (recv-takes_up at_b idle src tag' comm' status b run_b from)

  -- Two running processes take part in a broadcast or a reduction, one that passes values on and one
  -- that takes them up. If what the library delivers to the second covers what the tool posted at the
  -- first, as a copy or a maximum does, then the critical path of the second is afterwards no
  -- shorter than that of the first before, in each of the three clocks.
  pub reduction-Covers :
      (at_a at_b : Library) (idle : IpcData) (kind : Reduction) (comm root comm' root' : ℕ)
      (a b : Rank M)
      → a.running ≡ true
      → b.running ≡ true
      → contributes kind (at_a.rank comm) root ≡ true
      → collects kind (at_b.rank comm') root' ≡ true
      → ((v : IpcData)
          → last_posted (coll at_a idle kind comm root a).calls ≡ some v
          → Covers v (at_b.delivered b.posted))
      → Covers
          (mpi_happens_before a.clock)
          (mpi_happens_before (coll at_b idle kind comm' root' b).clock)
  reduction-Covers at_a at_b idle kind comm root comm' root' a b run_a run_b gives takes h =
      combined-Covers _ _ _ _ _ (coll-posts at_a idle kind comm root a run_a gives) h
        (coll-takes_up at_b idle kind comm' root' b run_b takes)
