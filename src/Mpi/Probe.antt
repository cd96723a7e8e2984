-- ===== src/Mpi/Probe.antt =====
-- include/mpi-critical.h: matched probes, the receives of a matched message, and `mpiTimer`. A message of
-- `MPI_Mprobe` is its `RequestData`; where the tool keeps it is in Requests.
use otf_cpt.Common.{ℕ, Bool, true, not, ◌&&◌, ◌||◌, Option, none, some, ◌==◌, if◌then◌else◌}
use otf_cpt.Common.Int.{ℤ, pos}
use otf_cpt.Clock.Message.{IpcData}
use otf_cpt.Clock.Metric.{Metric}
use otf_cpt.Clock.State.{state_useful, state_mpi}
use otf_cpt.Clock.Thread.{ThreadClock, new_clock, enter_state, exit_state}
use otf_cpt.Mpi.Blocking.{is_exact, take_up, receive}
use otf_cpt.Mpi.Pending.{Pending, complete_pbwc, complete_pb_hb, new_data, init}
use otf_cpt.Mpi.Rank.{pmpi_irecv, app_recv, Library, Rank, Piggyback, log, post, wait_all}

pub record Matched : Type 0 where
  pub r_data : Piggyback
  pub remote : ℕ
  pub tag : ℕ
  pub comm : ℕ

-- `src` and `tag` behind `if (src == MPI_ANY_SOURCE || tag == MPI_ANY_TAG)`
unfoldable pub resolve : Library → ℕ → ℕ → ℕ × ℕ → ℕ × ℕ
resolve library src tag status = if is_exact library src tag then (src, tag) else status

module _ {M : Type 0} ⦃metric : Metric M⦄ (library : Library) (idle : IpcData) where
  -- The destructor of `mpiMprobePB`, with `*flag`
  unfoldable pub mprobe : Bool → ℕ → ℕ → ℕ → ℕ × ℕ → Rank M → Option Matched × Rank M
  mprobe flag src tag comm status s =
      let (src', tag') = resolve library src tag status in
      let message : Option ℕ → Option Matched = λ req. some (record {
        r_data = record { values = idle; pb_req = req };
        remote = src';
        tag = tag';
        comm = comm;
      }) in
      if not flag
      then (none, s)
      else (if not s.running
          then (message none, s)
          else (message (some s.posted), post (pmpi_irecv comm src' tag') s))

  -- The destructor of `mpiRecvPB`. A message of `mprobe` has no wildcard; for one that had, the source
  -- would receive through members that are null or not set, and here the communicator is that of the
  -- message.
  unfoldable pub mrecv_end : ℕ → ℕ → ℕ → ℕ × ℕ → Piggyback × Rank M → Rank M
  mrecv_end src tag comm status (pb, s) =
      if not s.running || src == library.proc_null
      then s
      else (let exact = take_up library idle (wait_all library pb s) in
          let wild = take_up library idle (receive library idle comm status s) in
          if is_exact library src tag then exact else wild)

  -- `mpiRecvPB` on a message. While the tool is not running, the destructor reads nothing of the data.
  unfoldable pub mrecv : Matched → ℕ × ℕ → Rank M → Rank M
  mrecv m status s =
      mrecv_end m.remote m.tag m.comm status (m.r_data, log (app_recv m.comm status.0 status.1) s)

  -- `mpiIrecvPB` on a message, with what the members `tag` and `cData`, which this constructor does not
  -- set, hold by chance
  unfoldable pub imrecv : (tag_left comm_left : ℕ) → Matched → Rank M → Pending × Rank M
  unfolding init new_data
  imrecv tag_left comm_left m s =
      let d : Pending = record (new_data m.r_data.values) {
        pb_req = m.r_data.pb_req;
        remote = m.remote;
        comm = m.comm;
      } in
      if s.running && not (m.remote == library.proc_null)
      then (if not (is_exact library m.remote tag_left)
          then (record (init m.remote comm_left d) { completion = some complete_pbwc }, s)
          else (record d { completion = some complete_pb_hb; cancels = true }, s))
      else (d, s)

  -- The constructor of `mpiTimer`: the thread gets a clock, if it has none, with the number `next_id`.
  unfoldable pub timer_begin : Bool → ℤ → ℕ → Bool → Option (ThreadClock M) → Option (ThreadClock M)
  timer_begin running now next_id openmp none =
      elim (enter_state running now (pos 0) state_useful (new_clock next_id (pos 0) openmp)) [
        | none ↦ none
        | some tc ↦ enter_state running now (pos 0) state_mpi tc
      ]
  timer_begin running now next_id openmp (some tc) = enter_state running now (pos 0) state_mpi tc

  -- The destructor of `mpiTimer`
  unfoldable pub timer_end : Bool → ℤ → ThreadClock M → Option (ThreadClock M)
  timer_end running now tc = exit_state running now (pos 0) true tc
