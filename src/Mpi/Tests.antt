-- ===== src/Mpi/Tests.antt =====
-- Messages at concrete inputs.
use otf_cpt.Common.{◌≡◌, refl, true, some, List, [], ◌∷◌, All, arith, subst}
use otf_cpt.Common.Int.{pos}
use otf_cpt.Clock.Metric.Time.{TimeMetric, time_metric}
use otf_cpt.Clock.Thread.{new_clock}
use otf_cpt.Clock.Message.{IpcData, mpi_happens_before, mpi_happens_after}
use otf_cpt.Mpi.Rank.{
  bcast, allreduce, reduce, pmpi_isend, app_send, Library, Rank, log, post, wait_all,
}
use otf_cpt.Mpi.Blocking.{
  send, send_begin, send_end, recv, posted_with, coll, coll_post, bcast_begin, bcast_end,
  allreduce_begin, allreduce_end, reduce_begin, reduce_end, is_exact, take_up,
}
use otf_cpt.Mpi.Pending.{
  isend, irecv, irecv_begin, irecv_end, complete, isend_begin, isend_end, start_with, icoll, ibcast,
  iallreduce, ireduce, icoll_post, icoll_init, isendrecv, isendrecv_begin, isendrecv_end,
}
use otf_cpt.Mpi.Traffic.{
  Operation, op_send, op_recv, op_sendrecv, op_coll, IsAllowed, operate_all, piggybacked, applied,
  operate_all-piggybacked,
}
use otf_cpt.Mpi.Carries.{
  Covers, last_posted, some-path, message-Covers, reduction-Covers, contributes, collects,
}
use otf_cpt.Mpi.Completes.{receives, request-Covers, collective-Covers}
use otf_cpt.Mpi.Persistent.{
  send_init, recv_init, request_with, no_request, start, start_hb, start_request, complete_pers,
  complete_pers_no_hb, wait_request,
}
use otf_cpt.Mpi.Restarts.{Round, Delivers, exchange, sender_after, restarted-Covers}
use otf_cpt.Mpi.Probe.{Matched, resolve, mprobe, mrecv, imrecv}
use otf_cpt.Mpi.Probed.{probed-Covers, probed_request-Covers}
use otf_cpt.Mpi.Exchanged.{exchanged-Covers}

abbrev nothing : IpcData
nothing = record { useful = pos 0; ompi = pos 0; oomp = pos 0 }

abbrev earlier : IpcData
earlier = record { useful = pos 5; ompi = pos 7; oomp = pos 9 }

-- A process whose critical path is that of `earlier`.
abbrev sender : Rank TimeMetric
sender = record {
  running = true;
  clock = mpi_happens_after true earlier (new_clock 0 (pos 0) true);
  calls = [];
  posted = 0;
}

abbrev receiver : Rank TimeMetric
receiver = record { running = true; clock = new_clock 0 (pos 0) true; calls = []; posted = 4 }

-- `MPI_PROC_NULL`, `MPI_ANY_SOURCE` and `MPI_ANY_TAG` are the patterns of -1, -2 and -3.
abbrev library : Library
library = record {
  proc_null = 4294967295;
  any_source = 4294967294;
  any_tag = 4294967293;
  rank = λ comm. 0;
  delivered = λ req. mpi_happens_before sender.clock;
}

abbrev operations : List Operation
operations =
    op_send 1 3 0
    ∷ op_recv library.any_source 3 0 (2, 3)
    ∷ op_send library.proc_null 3 0
    ∷ op_sendrecv 1 3 2 4 0 (2, 4)
    ∷ op_coll reduce 0 1
    ∷ []

operations-IsAllowed : All (IsAllowed library) operations
unfolding IsAllowed is_exact
operations-IsAllowed =
    (tt, ((refl, λ e. absurd (ground (arith, e))), (tt, ((refl, λ e. refl), (tt, tt)))))

operate_all-piggybacked_example :
    piggybacked library (operate_all library nothing operations sender).calls
    ≡ applied library (operate_all library nothing operations sender).calls
unfolding piggybacked applied
operate_all-piggybacked_example =
    operate_all-piggybacked library nothing operations sender refl operations-IsAllowed refl

message-Covers_example :
    Covers
      (mpi_happens_before sender.clock)
      (mpi_happens_before (recv library nothing 0 3 0 (0, 3) receiver).clock)
unfolding send send_begin send_end posted_with log post last_posted
message-Covers_example =
    message-Covers library library nothing 1 3 0 0 3 0 (0, 3) sender receiver refl refl refl refl
      refl

Covers-self : (v : IpcData) → Covers v v
Covers-self v = record { useful = omega arith; ompi = omega arith; oomp = omega arith }

-- The maximum of equal values.
posted-Covers :
    (v : IpcData)
    → some (mpi_happens_before sender.clock) ≡ some v
    → Covers v (mpi_happens_before sender.clock)
posted-Covers v e =
    subst (λ u. Covers u (mpi_happens_before sender.clock)) (some-path e)
      (Covers-self (mpi_happens_before sender.clock))

reduction-Covers_example :
    Covers
      (mpi_happens_before sender.clock)
      (mpi_happens_before (coll library nothing allreduce 0 0 receiver).clock)
unfolding contributes collects coll coll_post bcast_begin bcast_end allreduce_begin allreduce_end
    reduce_begin reduce_end take_up posted_with wait_all log post last_posted
reduction-Covers_example =
    reduction-Covers library library nothing allreduce 0 0 0 0 sender receiver refl refl refl refl
      posted-Covers

collective-Covers_example : Covers (mpi_happens_before sender.clock) (
    mpi_happens_before
      (complete library nothing (icoll library nothing bcast 0 0 receiver).0 (0, 0) receiver).clock)
unfolding contributes collects icoll ibcast iallreduce ireduce icoll_post icoll_init start_with log
    post last_posted
collective-Covers_example =
    collective-Covers library library nothing bcast 0 0 0 0 (0, 0) sender receiver receiver refl
      refl refl refl refl posted-Covers

request-Covers_example : Covers (mpi_happens_before sender.clock) (
    mpi_happens_before
      (complete library nothing
        (irecv library nothing library.any_source 3 0 receiver).0
        (0, 3)
        receiver).clock)
unfolding isend isend_begin isend_end start_with log post last_posted
request-Covers_example =
    request-Covers library library nothing 1 3 0 library.any_source 3 0 (0, 3) sender receiver
      receiver refl refl refl refl refl refl

-- A send is not waited for.
send_unwaited :
    (send library nothing 1 3 0 sender).calls
    ≡ app_send 0 1 3 ∷ pmpi_isend (mpi_happens_before sender.clock) 0 1 3 0 ∷ []
unfolding send send_begin send_end posted_with log post wait_all
send_unwaited = refl

-- Of two receives, the first with a wildcard, the second is posted first for the tool.
overtaken :
    (receives library library.any_source 3 receiver (irecv library nothing 0 3 0 receiver).1 ≡ 5)
    × (receives library 0 3 receiver (irecv library nothing 0 3 0 receiver).1 ≡ 4)
unfolding receives is_exact irecv irecv_begin irecv_end start_with post
overtaken = (refl, refl)

-- A send and a receive that are started and completed twice.
abbrev once : Round TimeMetric
once = record {
  sender = sender;
  sent = sender;
  receiver = receiver;
  received = receiver;
  status = (0, 3);
}

restarted-Covers_example :
    All
      (λ p. Covers p.0 p.1)
      (exchange library library nothing
        (send_init library nothing 1 3 0 sender).0
        (recv_init library nothing 0 3 0 receiver).0
        (once ∷ once ∷ []))
unfolding Delivers send_init request_with no_request start start_hb start_request post last_posted
    sender_after complete_pers complete_pers_no_hb wait_request log is_exact
restarted-Covers_example =
    restarted-Covers library library nothing 1 3 0 0 3 0 sender receiver (once ∷ once ∷ []) refl
      refl refl (refl, refl, refl, refl, refl, (refl, refl, refl, refl, refl, tt))

-- A message from process 0 that was probed with a wildcard.
abbrev found : Matched
found = record {
  r_data = record { values = nothing; pb_req = some 4 };
  remote = 0;
  tag = 3;
  comm = 0;
}

probed-Covers_example :
    Covers
      (mpi_happens_before sender.clock)
      (mpi_happens_before (mrecv library nothing found (0, 3) receiver).clock)
unfolding resolve is_exact mprobe send send_begin send_end posted_with log post last_posted
probed-Covers_example =
    probed-Covers library library nothing 1 3 0 library.any_source 3 0 (0, 3) (0, 3) sender receiver
      receiver found refl refl refl refl refl refl refl refl

probed_request-Covers_example :
    let d = (imrecv library nothing 7 0 found receiver).0 in
    let after = complete library nothing d (0, 3) receiver in
    Covers (mpi_happens_before sender.clock) (mpi_happens_before after.clock)
unfolding resolve is_exact mprobe send send_begin send_end posted_with log post last_posted
probed_request-Covers_example =
    probed_request-Covers library library nothing 1 3 0 library.any_source 3 0 (0, 3) (0, 3) 7 0
      sender receiver receiver receiver found refl refl refl refl refl refl refl refl refl

-- Both processes send to the other one and receive from it.
exchanged-Covers_example :
    let d = (isendrecv library nothing 0 3 0 3 0 receiver).0 in
    let after = complete library nothing d (0, 3) receiver in
    Covers (mpi_happens_before sender.clock) (mpi_happens_before after.clock)
unfolding isendrecv isendrecv_begin isendrecv_end start_with log post last_posted
exchanged-Covers_example =
    exchanged-Covers library library nothing 1 3 1 3 0 0 3 0 3 0 (0, 3) sender receiver receiver
      refl refl refl refl refl refl
