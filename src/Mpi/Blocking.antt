-- ===== src/Mpi/Blocking.antt =====
-- include/mpi-critical.h: the classes whose constructor runs before a blocking MPI function and whose
-- destructor runs behind it. `idle` is `RequestData` where the constructor returns at once. Whether the tool
-- is running does not change between the two. A status is the pair of its source and tag.
use otf_cpt.Common.{ℕ, Bool, not, ◌&&◌, ◌||◌, none, some, ◌==◌, if◌then◌else◌}
use otf_cpt.Clock.Message.{IpcData, mpi_happens_before, mpi_happens_after}
use otf_cpt.Clock.Metric.{Metric}
use otf_cpt.Mpi.Rank.{
  Reduction, bcast, allreduce, reduce, Call, pmpi_isend, pmpi_irecv, pmpi_recv,
  pmpi_isendrecv_replace, pmpi_icoll, app_send, app_recv, app_coll, Library, Rank, Piggyback, log,
  post, wait_all,
}

-- `src != MPI_ANY_SOURCE && tag != MPI_ANY_TAG`
unfoldable pub is_exact : Library → ℕ → ℕ → Bool
is_exact library src tag = not (src == library.any_source) && not (tag == library.any_tag)

module _ {M : Type 0} ⦃metric : Metric M⦄ (library : Library) (idle : IpcData) where
  -- The values of `rData`, and what the constructor has posted.
  unfoldable pub posted_with : IpcData → (ℕ → Call) → Rank M → Piggyback × Rank M
  posted_with values c s = (record { values = values; pb_req = some s.posted }, post c s)

  unfoldable pub not_posted : Rank M → Piggyback × Rank M
  not_posted s = (record { values = idle; pb_req = none }, s)

  unfoldable pub take_up : IpcData × Rank M → Rank M
  take_up (values, s) = record s { clock = mpi_happens_after s.running values s.clock }

  -- `mpiSendPB`
  unfoldable pub send_begin : ℕ → ℕ → ℕ → Rank M → Piggyback × Rank M
  send_begin dest tag comm s =
      if not s.running || dest == library.proc_null
      then not_posted s
      else posted_with (mpi_happens_before s.clock)
          (pmpi_isend (mpi_happens_before s.clock) comm dest tag) s

  unfoldable pub send_end : ℕ → Piggyback × Rank M → Rank M
  send_end dest (pb, s) =
      if not s.running || not (dest == library.proc_null) then s else (wait_all library pb s).1

  unfoldable pub send : ℕ → ℕ → ℕ → Rank M → Rank M
  send dest tag comm s =
      let (pb, s') = send_begin dest tag comm s in
      send_end dest (pb, log (app_send comm dest tag) s')

  -- `mpiRecvPB`
  unfoldable pub recv_begin : ℕ → ℕ → ℕ → Rank M → Piggyback × Rank M
  recv_begin src tag comm s =
      if not s.running || src == library.proc_null || not (is_exact library src tag)
      then not_posted s
      else posted_with idle (pmpi_irecv comm src tag) s

  -- `PMPI_Recv`
  unfoldable pub receive : ℕ → ℕ × ℕ → Rank M → IpcData × Rank M
  receive comm (src, tag) s = (library.delivered s.posted, post (pmpi_recv comm src tag) s)

  unfoldable pub recv_end : ℕ → ℕ → ℕ → ℕ × ℕ → Piggyback × Rank M → Rank M
  recv_end src tag comm status (pb, s) =
      if not s.running || src == library.proc_null
      then s
      else (let exact = take_up (wait_all library pb s) in
          let wild = take_up (receive comm status s) in
          if is_exact library src tag then exact else wild)

  unfoldable pub recv : ℕ → ℕ → ℕ → ℕ × ℕ → Rank M → Rank M
  recv src tag comm status s =
      let (pb, s') = recv_begin src tag comm s in
      recv_end src tag comm status (pb, log (app_recv comm status.0 status.1) s')

  -- `mpiSendrecvPB`
  unfoldable pub sendrecv_begin : ℕ → ℕ → ℕ → ℕ → ℕ → Rank M → Piggyback × Rank M
  sendrecv_begin dest stag src rtag comm s =
      if not s.running || (src == library.proc_null && dest == library.proc_null)
      then not_posted s
      else posted_with (mpi_happens_before s.clock)
          (pmpi_isendrecv_replace (mpi_happens_before s.clock) comm dest stag src rtag) s

  unfoldable pub sendrecv_end : ℕ → ℕ → Piggyback × Rank M → Rank M
  sendrecv_end dest src (pb, s) =
      if not s.running || (src == library.proc_null && dest == library.proc_null)
      then s
      else (let (values, s') = wait_all library pb s in
          if not (src == library.proc_null) then take_up (values, s') else s')

  unfoldable pub sendrecv : ℕ → ℕ → ℕ → ℕ → ℕ → ℕ × ℕ → Rank M → Rank M
  sendrecv dest stag src rtag comm status s =
      let (pb, s') = sendrecv_begin dest stag src rtag comm s in
      sendrecv_end dest src
        (pb, log (app_recv comm status.0 status.1) (log (app_send comm dest stag) s'))

  -- The part that the constructors of the three collective classes share
  unfoldable pub coll_post : Reduction → ℕ → ℕ → IpcData → Rank M → Piggyback × Rank M
  coll_post kind comm root values s =
      if not s.running
      then not_posted s
      else posted_with values (pmpi_icoll kind values comm root) s

  -- `mpiCollBcastPBImpl`
  unfoldable pub bcast_begin : ℕ → ℕ → Rank M → Piggyback × Rank M
  bcast_begin comm root s =
      coll_post bcast comm root
        (if root == library.rank comm then mpi_happens_before s.clock else idle) s

  unfoldable pub bcast_end : Piggyback × Rank M → Rank M
  bcast_end (pb, s) = if not s.running then s else take_up (wait_all library pb s)

  -- `mpiCollAllreducePBImpl`
  unfoldable pub allreduce_begin : ℕ → ℕ → Rank M → Piggyback × Rank M
  allreduce_begin comm root s = coll_post allreduce comm root (mpi_happens_before s.clock) s

  unfoldable pub allreduce_end : Piggyback × Rank M → Rank M
  allreduce_end (pb, s) = if not s.running then s else take_up (wait_all library pb s)

  -- `mpiCollReducePBImpl`
  unfoldable pub reduce_begin : ℕ → ℕ → Rank M → Piggyback × Rank M
  reduce_begin comm root s = coll_post reduce comm root (mpi_happens_before s.clock) s

  unfoldable pub reduce_end : ℕ → ℕ → Piggyback × Rank M → Rank M
  reduce_end comm root (pb, s) =
      if not s.running
      then s
      else (let (values, s') = wait_all library pb s in
          if root == library.rank comm then take_up (values, s') else s')

  -- A collective function of the application between the two.
  unfoldable pub coll : Reduction → ℕ → ℕ → Rank M → Rank M
  coll bcast comm root s =
      let (pb, s') = bcast_begin comm root s in bcast_end (pb, log (app_coll bcast comm root) s')
  coll allreduce comm root s =
      let (pb, s') = allreduce_begin comm root s in
      allreduce_end (pb, log (app_coll allreduce comm root) s')
  coll reduce comm root s =
      let (pb, s') = reduce_begin comm root s in
      reduce_end comm root (pb, log (app_coll reduce comm root) s')
