-- ===== src/Mpi/Persistent.antt =====
-- include/mpi-critical.h and src/mpi-critical.cpp: persistent requests. `request` is `pb_reqs[0]`, and `active`
-- the operation that its last start has posted, unless that was completed. MPI returns at once from the wait for a
-- request that is not active. A callback is its name.
use otf_cpt.Common.{ℕ, Bool, false, not, Option, none, some, ◌==◌, if◌then◌else◌}
use otf_cpt.Clock.Message.{IpcData, mpi_happens_before}
use otf_cpt.Clock.Metric.{Metric}
use otf_cpt.Mpi.Blocking.{is_exact, take_up, receive}
use otf_cpt.Mpi.Rank.{
  bcast, allreduce, reduce, pmpi_send_init, pmpi_recv_init, pmpi_coll_init, pmpi_start, pmpi_wait,
  Library, Rank, log, post,
}

pub data StartCallback : Type 0 where
  start_pers_pb_hb start_pers_pb_no_hb : StartCallback

pub data PersCallback : Type 0 where
  complete_pbwc complete_pers_pb_hb complete_pers_pb_no_hb : PersCallback

pub record Persistent : Type 0 where
  pub values : IpcData
  pub request : Option ℕ
  pub active : Option ℕ
  pub start_callback : Option StartCallback
  pub completion_callback : Option PersCallback
  pub cancelled : Bool
  pub comm : ℕ

-- `rf.newData()`
unfoldable pub no_request : IpcData → Persistent
no_request values = record {
  values = values;
  request = none;
  active = none;
  start_callback = none;
  completion_callback = none;
  cancelled = false;
  comm = 0;
}

-- What the constructors do with a request and callbacks for its start and its completion.
unfoldable pub request_with : IpcData → ℕ → StartCallback → PersCallback → Persistent
request_with values req at_start at_end = record (no_request values) {
  request = some req;
  start_callback = some at_start;
  completion_callback = some at_end;
}

module _ {M : Type 0} ⦃metric : Metric M⦄ (library : Library) (idle : IpcData) where
  -- `mpiSendInitPB`
  unfoldable pub send_init : ℕ → ℕ → ℕ → Rank M → Persistent × Rank M
  send_init dest tag comm s = if dest == library.proc_null then (no_request idle, s) else (
    request_with idle s.posted start_pers_pb_hb complete_pers_pb_no_hb,
    post (pmpi_send_init comm dest tag) s,
  )

  -- `mpiRecvInitPB`
  unfoldable pub recv_init : ℕ → ℕ → ℕ → Rank M → Persistent × Rank M
  recv_init src tag comm s =
      if src == library.proc_null
      then (no_request idle, s)
      else (if not (is_exact library src tag)
          then (
            record (no_request idle) { completion_callback = some complete_pbwc; comm = comm },
            s,
          )
          else (
            request_with idle s.posted start_pers_pb_no_hb complete_pers_pb_hb,
            post (pmpi_recv_init comm src tag) s,
          ))

  -- `mpiCollBcastInitPBImpl`
  unfoldable pub bcast_init : ℕ → ℕ → Rank M → Persistent × Rank M
  bcast_init comm root s =
      let at_start = if root == library.rank comm then start_pers_pb_hb else start_pers_pb_no_hb in
      (
        request_with idle s.posted at_start complete_pers_pb_hb,
        post (pmpi_coll_init bcast comm root) s,
      )

  -- `mpiCollAllreduceInitPBImpl`
  unfoldable pub allreduce_init : ℕ → ℕ → Rank M → Persistent × Rank M
  allreduce_init comm root s = (
    request_with idle s.posted start_pers_pb_hb complete_pers_pb_hb,
    post (pmpi_coll_init allreduce comm root) s,
  )

  -- `mpiCollReduceInitPBImpl`
  unfoldable pub reduce_init : ℕ → ℕ → Rank M → Persistent × Rank M
  reduce_init comm root s =
      let at_end =
        if root == library.rank comm then complete_pers_pb_hb else complete_pers_pb_no_hb in
      (request_with idle s.posted start_pers_pb_hb at_end, post (pmpi_coll_init reduce comm root) s)

  -- `PMPI_Start(uc->pb_reqs)`
  unfoldable pub start_request : Persistent → Rank M → Persistent × Rank M
  start_request d s = elim d.request [
    | none ↦ (d, s)
    | some req ↦ (record d { active = some s.posted }, post (pmpi_start d.values) s)
  ]

  -- `startPersPBHB`
  unfoldable pub start_hb : Persistent → Rank M → Persistent × Rank M
  start_hb d s =
      let d' = record d { values = mpi_happens_before s.clock } in
      if not s.running then (d, s) else start_request d' s

  -- `startPersPBnoHB`
  unfoldable pub start_no_hb : Persistent → Rank M → Persistent × Rank M
  start_no_hb d s = if not s.running then (d, s) else start_request d s

  -- `start`
  unfoldable pub start : Persistent → Rank M → Persistent × Rank M
  start d s = elim d.start_callback [
    | none ↦ (d, s)
    | some start_pers_pb_hb ↦ start_hb d s
    | some start_pers_pb_no_hb ↦ start_no_hb d s
  ]

  -- `PMPI_Wait(uc->pb_reqs, ...)`
  unfoldable pub wait_request : Persistent → Rank M → Persistent × Rank M
  wait_request d s = elim d.active [
    | none ↦ (d, s)
    | some req ↦ (record d { values = library.delivered req; active = none }, log (pmpi_wait req) s)
  ]

  -- `if (!uc->isCancelled()) MpiHappensAfter(uc, uc->remote);`
  unfoldable pub unless_cancelled : Persistent × Rank M → Persistent × Rank M
  unless_cancelled (d, s) =
      if not d.cancelled
      then (d, take_up library idle (d.values, s))
      else (record d { cancelled = false }, s)

  -- `completePersPBHB`
  unfoldable pub complete_pers_hb : Persistent → Rank M → Persistent × Rank M
  complete_pers_hb d s = if not s.running then (d, s) else unless_cancelled (wait_request d s)

  -- `completePersPBnoHB`
  unfoldable pub complete_pers_no_hb : Persistent → Rank M → Persistent × Rank M
  complete_pers_no_hb d s =
      let d' = record d { cancelled = false } in
      if not s.running then (d', s) else wait_request d' s

  -- `completePBWC`
  unfoldable pub complete_pers_wild : Persistent → ℕ × ℕ → Rank M → Persistent × Rank M
  complete_pers_wild d status s =
      if d.cancelled
      then (record d { cancelled = false }, s)
      else (let (values, s') = receive library idle d.comm status s in
          (record d { values = values }, take_up library idle (values, s')))

  -- `complete`
  unfoldable pub complete_pers : Persistent → ℕ × ℕ → Rank M → Persistent × Rank M
  complete_pers d status s = elim d.completion_callback [
    | none ↦ (d, s)
    | some complete_pbwc ↦ complete_pers_wild d status s
    | some complete_pers_pb_hb ↦ complete_pers_hb d s
    | some complete_pers_pb_no_hb ↦ complete_pers_no_hb d s
  ]
