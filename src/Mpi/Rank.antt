-- ===== src/Mpi/Rank.antt =====
-- include/mpi-critical.h and include/handle-data.h: a process with the clock of the thread that calls
-- MPI, and the log of its calls of the MPI library, the newest first. An `int` is a number, its bit
-- pattern. A call with the prefix `pmpi` is one of the tool, on the duplicate of the communicator that it
-- names, and one with the prefix `app` is the call of the application that the wrapper forwards.
use otf_cpt.Common.{ℕ, suc, Bool, Option, none, some, List, ◌∷◌}
use otf_cpt.Clock.Message.{IpcData}
use otf_cpt.Clock.Thread.{ThreadClock}

pub data Reduction : Type 0 where
  bcast allreduce reduce : Reduction

pub data Call : Type 0 where
  pmpi_isend : IpcData → (comm dest tag req : ℕ) → Call
  pmpi_irecv : (comm source tag req : ℕ) → Call
  pmpi_recv : (comm source tag req : ℕ) → Call
  pmpi_isendrecv_replace : IpcData → (comm dest sendtag source recvtag req : ℕ) → Call
  pmpi_icoll : Reduction → IpcData → (comm root req : ℕ) → Call
  pmpi_send_init : (comm dest tag req : ℕ) → Call
  pmpi_recv_init : (comm source tag req : ℕ) → Call
  pmpi_coll_init : Reduction → (comm root req : ℕ) → Call
  pmpi_start : IpcData → ℕ → Call
  pmpi_wait : ℕ → Call
  pmpi_cancel : ℕ → Call
  app_send : (comm dest tag : ℕ) → Call
  app_recv : (comm source tag : ℕ) → Call
  app_coll : Reduction → (comm root : ℕ) → Call

-- What is used of the MPI library: constants, the rank of the process in a communicator, and what the
-- operation with a number stores where it receives.
pub record Library : Type 0 where
  pub proc_null : ℕ
  pub any_source : ℕ
  pub any_tag : ℕ
  pub rank : ℕ → ℕ
  pub delivered : ℕ → IpcData

-- Operations of the library are numbered in the order in which they are posted.
pub record Rank (M : Type 0) : Type 0 where
  pub running : Bool
  pub clock : ThreadClock M
  pub calls : List Call
  pub posted : ℕ

-- `RequestData rData`: the values, and `pb_reqs[0]`, where `none` is `MPI_REQUEST_NULL`. The wrappers
-- set no `pb_reqs[1]`.
pub record Piggyback : Type 0 where
  pub values : IpcData
  pub pb_req : Option ℕ

module _ {M : Type 0} where
  unfoldable pub log : Call → Rank M → Rank M
  log c s = record s { calls = c ∷ s.calls }

  -- A call that starts the operation with the next number.
  unfoldable pub post : (ℕ → Call) → Rank M → Rank M
  post c s = record s { calls = c s.posted ∷ s.calls; posted = suc s.posted }

  -- `PMPI_Waitall(2, rData.pb_reqs, ...)`, after which the values are those that were received.
  unfoldable pub wait_all : Library → Piggyback → Rank M → IpcData × Rank M
  wait_all library pb s = elim pb.pb_req [
    | none ↦ (pb.values, s)
    | some req ↦ (library.delivered req, log (pmpi_wait req) s)
  ]
