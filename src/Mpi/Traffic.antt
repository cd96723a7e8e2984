-- ===== src/Mpi/Traffic.antt =====
-- The messages of the tool beside those of the application.
use otf_cpt.Common.{
  ℕ, ◌≡◌, refl, sym, ap, ◌∙◌, true, false, List, [], ◌∷◌, ◌==◌, if◌then◌else◌, All, Bool-cases, inl,
  inr,
}
use otf_cpt.Clock.Message.{IpcData}
use otf_cpt.Clock.Metric.{Metric}
use otf_cpt.Mpi.Rank.{
  Reduction, bcast, allreduce, reduce, Call, pmpi_isend, pmpi_irecv, pmpi_recv,
  pmpi_isendrecv_replace, pmpi_icoll, pmpi_wait, pmpi_send_init, pmpi_recv_init, pmpi_coll_init,
  pmpi_start, pmpi_cancel, app_send, app_recv, app_coll, Library, Rank, log, post, wait_all,
}
use otf_cpt.Mpi.Blocking.{
  posted_with, not_posted, take_up, send_begin, send_end, send, is_exact, recv_begin, receive,
  recv_end, recv, sendrecv_begin, sendrecv_end, sendrecv, coll, coll_post, bcast_begin, bcast_end,
  allreduce_begin, allreduce_end, reduce_begin, reduce_end,
}

-- A message or a reduction that MPI matches by its communicator, peer and tag.
pub data Message : Type 0 where
  sent : (comm dest tag : ℕ) → Message
  received : (comm source tag : ℕ) → Message
  reduced : Reduction → (comm root : ℕ) → Message

-- One more message, unless the peer is `MPI_PROC_NULL`.
abbrev pub unless_null : Library → ℕ → Message → List Message → List Message
unless_null library peer m r = if peer == library.proc_null then r else m ∷ r

-- What the tool sends and receives on the duplicates of the communicators.
unfoldable pub piggybacked : Library → List Call → List Message
piggybacked library [] = []
piggybacked library (pmpi_isend v c d t q ∷ r) = sent c d t ∷ piggybacked library r
piggybacked library (pmpi_irecv c s t q ∷ r) = received c s t ∷ piggybacked library r
piggybacked library (pmpi_recv c s t q ∷ r) = received c s t ∷ piggybacked library r
piggybacked library (pmpi_isendrecv_replace v c d t s u q ∷ r) =
    unless_null library s (received c s u)
      (unless_null library d (sent c d t) (piggybacked library r))
piggybacked library (pmpi_icoll k v c root q ∷ r) = reduced k c root ∷ piggybacked library r
piggybacked library (pmpi_send_init c d t q ∷ r) = piggybacked library r
piggybacked library (pmpi_recv_init c s t q ∷ r) = piggybacked library r
piggybacked library (pmpi_coll_init k c root q ∷ r) = piggybacked library r
piggybacked library (pmpi_start v q ∷ r) = piggybacked library r
piggybacked library (pmpi_wait q ∷ r) = piggybacked library r
piggybacked library (pmpi_cancel q ∷ r) = piggybacked library r
piggybacked library (app_send c d t ∷ r) = piggybacked library r
piggybacked library (app_recv c s t ∷ r) = piggybacked library r
piggybacked library (app_coll k c root ∷ r) = piggybacked library r

-- What the application sends and receives.
unfoldable pub applied : Library → List Call → List Message
applied library [] = []
applied library (pmpi_isend v c d t q ∷ r) = applied library r
applied library (pmpi_irecv c s t q ∷ r) = applied library r
applied library (pmpi_recv c s t q ∷ r) = applied library r
applied library (pmpi_isendrecv_replace v c d t s u q ∷ r) = applied library r
applied library (pmpi_icoll k v c root q ∷ r) = applied library r
applied library (pmpi_send_init c d t q ∷ r) = applied library r
applied library (pmpi_recv_init c s t q ∷ r) = applied library r
applied library (pmpi_coll_init k c root q ∷ r) = applied library r
applied library (pmpi_start v q ∷ r) = applied library r
applied library (pmpi_wait q ∷ r) = applied library r
applied library (pmpi_cancel q ∷ r) = applied library r
applied library (app_send c d t ∷ r) = unless_null library d (sent c d t) (applied library r)
applied library (app_recv c s t ∷ r) = unless_null library s (received c s t) (applied library r)
applied library (app_coll k c root ∷ r) = reduced k c root ∷ applied library r

-- A blocking call of the application, with the status that the library returns.
pub data Operation : Type 0 where
  op_send : (dest tag comm : ℕ) → Operation
  op_recv : (src tag comm : ℕ) → ℕ × ℕ → Operation
  op_sendrecv : (dest stag src rtag comm : ℕ) → ℕ × ℕ → Operation
  op_coll : Reduction → (comm root : ℕ) → Operation

-- A status has the source and the tag that were asked for, where no wildcard was, and
-- `MPI_PROC_NULL` if and only if that was the source. `MPI_Sendrecv` is not called with a wildcard.
unfoldable pub IsAllowed : Library → Operation → Type 0
IsAllowed library (op_send dest tag comm) = Unit
IsAllowed library (op_recv src tag comm status) =
    ((src == library.proc_null) ≡ (status.0 == library.proc_null))
    × (is_exact library src tag ≡ true → status ≡ (src, tag))
IsAllowed library (op_sendrecv dest stag src rtag comm status) =
    ((src == library.proc_null) ≡ (status.0 == library.proc_null))
    × ((src == library.proc_null) ≡ false → status ≡ (src, rtag))
IsAllowed library (op_coll kind comm root) = Unit

module _ {M : Type 0} ⦃metric : Metric M⦄ (library : Library) (idle : IpcData) where
  unfoldable pub operate : Operation → Rank M → Rank M
  operate (op_send dest tag comm) s = send library idle dest tag comm s
  operate (op_recv src tag comm status) s = recv library idle src tag comm status s
  operate (op_sendrecv dest stag src rtag comm status) s =
      sendrecv library idle dest stag src rtag comm status s
  operate (op_coll kind comm root) s = coll library idle kind comm root s

  unfoldable pub operate_all : List Operation → Rank M → Rank M
  operate_all [] s = s
  operate_all (o ∷ r) s = operate_all r (operate o s)

  record Together (s s' : Rank M) : Type 0 where
    running : s'.running ≡ s.running
    equal :
        piggybacked library s.calls ≡ applied library s.calls
        → piggybacked library s'.calls ≡ applied library s'.calls

  send-Together :
      (dest tag comm : ℕ) (s : Rank M)
      → s.running ≡ true
      → Together s (send library idle dest tag comm s)
  unfolding send send_begin send_end posted_with not_posted wait_all log post piggybacked applied
  send-Together dest tag comm s run = elim (Bool-cases (dest == library.proc_null)) [
    | inl e ↦ rw (run, e) (record { running = refl; equal = λ h. rw e h })
    | inr e ↦
        rw (run, e)
          (record { running = refl; equal = λ h. rw e (ap (λ r. sent comm dest tag ∷ r) h) })
  ]

  recv-Together :
      (src tag comm : ℕ) (status : ℕ × ℕ) (s : Rank M)
      → s.running ≡ true
      → IsAllowed library (op_recv src tag comm status)
      → Together s (recv library idle src tag comm status s)
  unfolding recv recv_begin recv_end receive take_up posted_with not_posted wait_all log post
      piggybacked applied IsAllowed
  recv-Together src tag comm (source, tag') s run (null, exact) =
      elim (Bool-cases (src == library.proc_null)) [
        | inl e ↦
            let e' = sym null ∙ e in rw (run, e) (record { running = refl; equal = λ h. rw e' h })
        | inr e ↦
            let e' = sym null ∙ e in
            elim (Bool-cases (is_exact library src tag)) [
              | inl x ↦
                  let source_is = ap (λ (a : ℕ × ℕ). a.0) (exact x) in
                  let tag_is = ap (λ (a : ℕ × ℕ). a.1) (exact x) in
                  rw (run, e, x)
                    (record {
                      running = refl;
                      equal =
                          λ h. rw (source_is, tag_is, e) (ap (λ r. received comm src tag ∷ r) h);
                    })
              | inr x ↦
                  rw (run, e, x)
                    (record {
                      running = refl;
                      equal = λ h. rw e' (ap (λ r. received comm source tag' ∷ r) h);
                    })
            ]
      ]

  sendrecv-Together :
      (dest stag src rtag comm : ℕ) (status : ℕ × ℕ) (s : Rank M)
      → s.running ≡ true
      → IsAllowed library (op_sendrecv dest stag src rtag comm status)
      → Together s (sendrecv library idle dest stag src rtag comm status s)
  unfolding sendrecv sendrecv_begin sendrecv_end take_up posted_with not_posted wait_all log post
      piggybacked applied IsAllowed
  sendrecv-Together dest stag src rtag comm (source, tag') s run (null, exact) =
      elim (Bool-cases (src == library.proc_null)) [
        | inl e ↦
            let e' = sym null ∙ e in
            elim (Bool-cases (dest == library.proc_null)) [
              | inl d ↦ rw (run, e, d) (record { running = refl; equal = λ h. rw (e', d) h })
              | inr d ↦
                  rw (run, e, d)
                    (record {
                      running = refl;
                      equal = λ h. rw (e, e', d) (ap (λ r. sent comm dest stag ∷ r) h);
                    })
            ]
        | inr e ↦
            let source_is = ap (λ (a : ℕ × ℕ). a.0) (exact e) in
            let tag_is = ap (λ (a : ℕ × ℕ). a.1) (exact e) in
            elim (Bool-cases (dest == library.proc_null)) [
              | inl d ↦
                  rw (run, e)
                    (record {
                      running = refl;
                      equal = λ h.
                          rw (source_is, tag_is, e, d) (ap (λ r. received comm src rtag ∷ r) h);
                    })
              | inr d ↦
                  rw (run, e)
                    (record {
                      running = refl;
                      equal = λ h.
                          rw (source_is, tag_is, e, d)
                            (ap (λ r. received comm src rtag ∷ sent comm dest stag ∷ r) h);
                    })
            ]
      ]

  coll-Together :
      (kind : Reduction) (comm root : ℕ) (s : Rank M)
      → s.running ≡ true
      → Together s (coll library idle kind comm root s)
  unfolding coll coll_post bcast_begin bcast_end allreduce_begin allreduce_end reduce_begin
      reduce_end take_up posted_with not_posted wait_all log post piggybacked applied
  coll-Together bcast comm root s run =
      rw run (record { running = refl; equal = λ h. ap (λ r. reduced bcast comm root ∷ r) h })
  coll-Together allreduce comm root s run =
      rw run (record { running = refl; equal = λ h. ap (λ r. reduced allreduce comm root ∷ r) h })
  coll-Together reduce comm root s run = elim (Bool-cases (root == library.rank comm)) [
    | inl e ↦
        rw (run, e)
          (record { running = refl; equal = λ h. ap (λ r. reduced reduce comm root ∷ r) h })
    | inr e ↦
        rw (run, e)
          (record { running = refl; equal = λ h. ap (λ r. reduced reduce comm root ∷ r) h })
  ]

  operate-Together :
      (o : Operation) (s : Rank M)
      → s.running ≡ true
      → IsAllowed library o
      → Together s (operate o s)
  unfolding operate
  operate-Together (op_send dest tag comm) s run h = send-Together dest tag comm s run
  operate-Together (op_recv src tag comm status) s run h = recv-Together src tag comm status s run h
  operate-Together (op_sendrecv dest stag src rtag comm status) s run h =
      sendrecv-Together dest stag src rtag comm status s run h
  operate-Together (op_coll kind comm root) s run h = coll-Together kind comm root s run

  -- While the tool runs, any sequence of blocking sends, receives, combined sends and receives without
  -- wildcards, broadcasts and reductions posts on the duplicates of the communicators the same messages
  -- with the same peers and tags, in the same order, as the application on the communicators themselves,
  -- each message to or from `MPI_PROC_NULL` left out: MPI matches each message of the tool like that of the
  -- application.
  pub operate_all-piggybacked :
      (ops : List Operation) (s : Rank M)
      → s.running ≡ true
      → All (IsAllowed library) ops
      → piggybacked library s.calls ≡ applied library s.calls
      → piggybacked library (operate_all ops s).calls ≡ applied library (operate_all ops s).calls
  unfolding operate_all
  operate_all-piggybacked [] s run h e = e
  operate_all-piggybacked (o ∷ r) s run (h, hs) e =
      let t = operate-Together o s run h in
      operate_all-piggybacked r (operate o s) (t.running ∙ run) hs (t.equal e)
