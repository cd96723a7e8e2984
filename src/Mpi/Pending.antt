-- ===== src/Mpi/Pending.antt =====
-- include/mpi-critical.h and src/mpi-critical.cpp: the classes for non-blocking MPI functions, and the
-- callbacks at the completion or the cancellation of a request. A callback is its name. The handle of the
-- request, and where the request is kept, is in Requests.
use otf_cpt.Common.{ℕ, Bool, true, false, not, ◌&&◌, ◌||◌, Option, none, some, ◌==◌, if◌then◌else◌}
use otf_cpt.Clock.Message.{IpcData, mpi_happens_before}
use otf_cpt.Clock.Metric.{Metric}
use otf_cpt.Mpi.Blocking.{is_exact, take_up, receive}
use otf_cpt.Mpi.Rank.{
  Reduction, bcast, allreduce, reduce, Call, pmpi_isend, pmpi_irecv, pmpi_isendrecv_replace,
  pmpi_icoll, pmpi_cancel, app_send, app_coll, Library, Rank, log, post, wait_all,
}

pub data Completion : Type 0 where
  complete_pbwc complete_pb_hb complete_pb_no_hb : Completion

-- `RequestData`, as far as the wrappers and callbacks touch it.
pub record Pending : Type 0 where
  pub values : IpcData
  pub pb_req : Option ℕ
  pub completion : Option Completion
  pub cancels : Bool  -- `cancelCallback` is `cancelPB`
  pub cancelled : Bool
  pub remote : ℕ
  pub comm : ℕ

-- `rf.newData()`, with what stands in `values`, `remote` and `comm` from an earlier use.
unfoldable pub new_data : IpcData → Pending
new_data values = record {
  values = values;
  pb_req = none;
  completion = none;
  cancels = false;
  cancelled = false;
  remote = 0;
  comm = 0;
}

-- `init` with a remote process and a communicator
unfoldable pub init : ℕ → ℕ → Pending → Pending
init remote comm d = record d { remote = remote; comm = comm; cancelled = false }

module _ {M : Type 0} ⦃metric : Metric M⦄ (library : Library) (idle : IpcData) where
  unfoldable pub start_with : IpcData → (ℕ → Call) → Rank M → Pending × Rank M
  start_with values c s = (record (new_data values) { pb_req = some s.posted }, post c s)

  -- `mpiIsendPB`
  unfoldable pub isend_begin : ℕ → ℕ → ℕ → Rank M → Pending × Rank M
  isend_begin dest tag comm s =
      if not s.running || dest == library.proc_null
      then (new_data idle, s)
      else start_with (mpi_happens_before s.clock)
          (pmpi_isend (mpi_happens_before s.clock) comm dest tag) s

  unfoldable pub isend_end : ℕ → Pending × Rank M → Pending × Rank M
  isend_end dest (d, s) =
      if s.running && not (dest == library.proc_null)
      then (record (init dest 0 d) { completion = some complete_pb_no_hb }, s)
      else (d, s)

  unfoldable pub isend : ℕ → ℕ → ℕ → Rank M → Pending × Rank M
  isend dest tag comm s =
      let (d, s') = isend_begin dest tag comm s in
      isend_end dest (d, log (app_send comm dest tag) s')

  -- `mpiIrecvPB` without a message of `MPI_Mprobe`. The application's receive is logged when it
  -- completes, with its status.
  unfoldable pub irecv_begin : ℕ → ℕ → ℕ → Rank M → Pending × Rank M
  irecv_begin src tag comm s =
      if not s.running || src == library.proc_null || not (is_exact library src tag)
      then (new_data idle, s)
      else start_with idle (pmpi_irecv comm src tag) s

  unfoldable pub irecv_end : ℕ → ℕ → ℕ → Pending × Rank M → Pending × Rank M
  irecv_end src tag comm (d, s) =
      if s.running && not (src == library.proc_null)
      then (if not (is_exact library src tag)
          then (record (init src comm d) { completion = some complete_pbwc }, s)
          else (record (init src 0 d) { completion = some complete_pb_hb; cancels = true }, s))
      else (d, s)

  unfoldable pub irecv : ℕ → ℕ → ℕ → Rank M → Pending × Rank M
  irecv src tag comm s = irecv_end src tag comm (irecv_begin src tag comm s)

  -- `mpiIsendrecvPB`
  unfoldable pub isendrecv_begin : ℕ → ℕ → ℕ → ℕ → ℕ → Rank M → Pending × Rank M
  isendrecv_begin dest stag src rtag comm s =
      if not s.running || (src == library.proc_null && dest == library.proc_null)
      then (new_data idle, s)
      else start_with (mpi_happens_before s.clock)
          (pmpi_isendrecv_replace (mpi_happens_before s.clock) comm dest stag src rtag) s

  unfoldable pub isendrecv_end : ℕ → Pending × Rank M → Pending × Rank M
  isendrecv_end src (d, s) =
      let completion =
        if not (src == library.proc_null) then complete_pb_hb else complete_pb_no_hb in
      if s.running
      then (record (init src 0 d) { completion = some completion; cancels = true }, s)
      else (d, s)

  unfoldable pub isendrecv : ℕ → ℕ → ℕ → ℕ → ℕ → Rank M → Pending × Rank M
  isendrecv dest stag src rtag comm s =
      let (d, s') = isendrecv_begin dest stag src rtag comm s in
      isendrecv_end src (d, log (app_send comm dest stag) s')

  -- The part that the constructors of the three collective classes share
  unfoldable pub icoll_post : Reduction → ℕ → ℕ → IpcData → Rank M → Pending × Rank M
  icoll_post kind comm root values s =
      if not s.running
      then (new_data idle, s)
      else start_with values (pmpi_icoll kind values comm root) s

  -- `init` and `setCompletionCallback`, if the tool is running
  unfoldable pub icoll_init : Completion → Pending × Rank M → Pending × Rank M
  icoll_init completion (d, s) =
      if s.running then (record (init 0 0 d) { completion = some completion }, s) else (d, s)

  -- `mpiIcollBcastPBImpl`
  unfoldable pub ibcast : ℕ → ℕ → Rank M → Pending × Rank M
  ibcast comm root s =
      let values : IpcData =
        if root == library.rank comm then mpi_happens_before s.clock else idle in
      let (d, s') = icoll_post bcast comm root values s in
      icoll_init complete_pb_hb (d, log (app_coll bcast comm root) s')

  -- `mpiIcollAllreducePBImpl`
  unfoldable pub iallreduce : ℕ → ℕ → Rank M → Pending × Rank M
  iallreduce comm root s =
      let (d, s') = icoll_post allreduce comm root (mpi_happens_before s.clock) s in
      icoll_init complete_pb_hb (d, log (app_coll allreduce comm root) s')

  -- `mpiIcollReducePBImpl`
  unfoldable pub ireduce : ℕ → ℕ → Rank M → Pending × Rank M
  ireduce comm root s =
      let (d, s') = icoll_post reduce comm root (mpi_happens_before s.clock) s in
      let completion = if root == library.rank comm then complete_pb_hb else complete_pb_no_hb in
      icoll_init completion (d, log (app_coll reduce comm root) s')

  unfoldable pub icoll : Reduction → ℕ → ℕ → Rank M → Pending × Rank M
  icoll bcast comm root s = ibcast comm root s
  icoll allreduce comm root s = iallreduce comm root s
  icoll reduce comm root s = ireduce comm root s

  -- `isCancelled`, which clears the flag, is read once by each callback.
  unfoldable pub wait_pending : Pending → Rank M → IpcData × Rank M
  wait_pending d s = wait_all library (record { values = d.values; pb_req = d.pb_req }) s

  -- `completePBWC`
  unfoldable pub complete_wild : Pending → ℕ × ℕ → Rank M → Rank M
  complete_wild d status s =
      if d.cancelled then s else take_up library idle (receive library idle d.comm status s)

  -- `completePBHB`
  unfoldable pub complete_hb : Pending → Rank M → Rank M
  complete_hb d s =
      let (values, s') = wait_pending d s in
      if not d.cancelled then take_up library idle (values, s') else s'

  -- `complete` on a request, with the status of the operation
  unfoldable pub complete : Pending → ℕ × ℕ → Rank M → Rank M
  complete d status s = elim d.completion [
    | none ↦ s
    | some complete_pbwc ↦ complete_wild d status s
    | some complete_pb_hb ↦ complete_hb d s
    | some complete_pb_no_hb ↦ (wait_pending d s).1
  ]

  -- `cancel`, and `cancelPB`
  unfoldable pub cancel : Pending → Rank M → Pending × Rank M
  cancel d s =
      let d' = record d { cancelled = true } in
      if d.cancels
      then elim d.pb_req [ none ↦ (d', s) | some req ↦ (d', log (pmpi_cancel req) s) ]
      else (d', s)
