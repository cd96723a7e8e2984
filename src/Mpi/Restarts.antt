-- ===== src/Mpi/Restarts.antt =====
-- Persistent requests that are started and completed again and again.
use otf_cpt.Common.{ℕ, ◌≡◌, refl, true, false, some, List, [], ◌∷◌, ◌==◌, All}
use otf_cpt.Clock.Message.{IpcData, mpi_happens_before, mpi_happens_after}
use otf_cpt.Clock.Metric.{Metric}
use otf_cpt.Mpi.Rank.{Library, Rank, log, post}
use otf_cpt.Mpi.Blocking.{is_exact, take_up}
use otf_cpt.Mpi.Persistent.{
  Persistent, start_pers_pb_hb, start_pers_pb_no_hb, complete_pers_pb_hb, complete_pers_pb_no_hb,
  no_request, request_with, send_init, recv_init, start_request, start_hb, start_no_hb, start,
  wait_request, unless_cancelled, complete_pers_hb, complete_pers_no_hb, complete_pers,
}
use otf_cpt.Mpi.Carries.{Covers, last_posted, delivered-Covers}

-- What `mpiSendInitPB` and `mpiRecvInitPB` set up, and no start or completion takes back.
record IsSender (d : Persistent) : Type 0 where
  req : ℕ
  request : d.request ≡ some req
  at_start : d.start_callback ≡ some start_pers_pb_hb
  at_end : d.completion_callback ≡ some complete_pers_pb_no_hb

record IsReceiver (d : Persistent) : Type 0 where
  req : ℕ
  request : d.request ≡ some req
  at_start : d.start_callback ≡ some start_pers_pb_no_hb
  at_end : d.completion_callback ≡ some complete_pers_pb_hb
  live : d.cancelled ≡ false

-- A message: the states in which the send and the receive are started, and in which they complete.
pub record Round (M : Type 0) : Type 0 where
  pub sender : Rank M
  pub sent : Rank M
  pub receiver : Rank M
  pub received : Rank M
  pub status : ℕ × ℕ

module _ {M : Type 0} ⦃metric : Metric M⦄ (at_a at_b : Library) (idle : IpcData) where
  -- The requests behind a round.
  unfoldable pub sender_after : Persistent → Round M → Persistent
  sender_after d r = (complete_pers at_a idle (start at_a idle d r.sender).0 r.status r.sent).0

  unfoldable pub receiver_after : Persistent → Round M → Persistent × Rank M
  receiver_after d r = complete_pers at_b idle (start at_b idle d r.receiver).0 r.status r.received

  -- The clocks of the sender at each start, beside those of the receiver behind the completion.
  unfoldable pub exchange : Persistent → Persistent → List (Round M) → List (IpcData × IpcData)
  exchange d e [] = []
  exchange d e (r ∷ rounds) =
      let (e', after) = receiver_after e r in
      (mpi_happens_before r.sender.clock, mpi_happens_before after.clock)
      ∷ exchange (sender_after d r) e' rounds

  -- The tool runs all the time, and the library delivers to each receive what the send has posted.
  unfoldable pub Delivers : Persistent → List (Round M) → Type 0
  Delivers d [] = Unit
  Delivers d (r ∷ rounds) =
      (r.sender.running ≡ true)
      × (r.sent.running ≡ true)
      × (r.receiver.running ≡ true)
      × (r.received.running ≡ true)
      × (last_posted (start at_a idle d r.sender).1.calls ≡ some (at_b.delivered r.receiver.posted))
      × Delivers (sender_after d r) rounds

  start-posts :
      (d : Persistent) (a : Rank M)
      → IsSender d
      → a.running ≡ true
      → last_posted (start at_a idle d a).1.calls ≡ some (mpi_happens_before a.clock)
  unfolding start start_hb start_request post last_posted
  start-posts d a s run = rw (s.at_start, run, s.request) refl

  sender_after-IsSender :
      (d : Persistent) (r : Round M)
      → IsSender d
      → r.sender.running ≡ true
      → r.sent.running ≡ true
      → IsSender (sender_after d r)
  unfolding sender_after start start_hb start_request complete_pers complete_pers_no_hb wait_request
      post log
  sender_after-IsSender d r s run run' =
      rw (s.at_start, run, s.request, s.at_end, run')
        (record { req = s.req; request = refl; at_start = refl; at_end = s.at_end })

  receiver_after-IsReceiver :
      (e : Persistent) (r : Round M)
      → IsReceiver e
      → r.receiver.running ≡ true
      → r.received.running ≡ true
      → IsReceiver (receiver_after e r).0
        × ((receiver_after e r).1.clock
            ≡ mpi_happens_after true (at_b.delivered r.receiver.posted) r.received.clock)
  unfolding receiver_after start start_no_hb start_request complete_pers complete_pers_hb
      unless_cancelled wait_request take_up post log
  receiver_after-IsReceiver e r s run run' =
      rw (s.at_start, run, s.request, s.at_end, run', s.live)
        (
          record { req = s.req; request = refl; at_start = refl; at_end = s.at_end; live = refl },
          refl,
        )

  send_init-IsSender :
      (dest tag comm : ℕ) (a : Rank M)
      → (dest == at_a.proc_null) ≡ false
      → IsSender (send_init at_a idle dest tag comm a).0
  unfolding send_init request_with
  send_init-IsSender dest tag comm a e =
      rw e (record { req = a.posted; request = refl; at_start = refl; at_end = refl })

  recv_init-IsReceiver :
      (src tag comm : ℕ) (b : Rank M)
      → (src == at_b.proc_null) ≡ false
      → is_exact at_b src tag ≡ true
      → IsReceiver (recv_init at_b idle src tag comm b).0
  unfolding recv_init request_with no_request
  recv_init-IsReceiver src tag comm b e exact =
      rw (e, exact)
        (record { req = b.posted; request = refl; at_start = refl; at_end = refl; live = refl })

  exchange-Covers :
      (d e : Persistent) (rounds : List (Round M))
      → IsSender d
      → IsReceiver e
      → Delivers d rounds
      → All (λ p. Covers p.0 p.1) (exchange d e rounds)
  unfolding exchange Delivers
  exchange-Covers d e [] s r h = tt
  exchange-Covers d e (x ∷ rounds) s r (run_a, run_a', run_b, run_b', delivered, more) =
      let after = receiver_after-IsReceiver e x r run_b run_b' in
      (
        delivered-Covers _ _ _ _ _ (start-posts d x.sender s run_a) delivered after.1,
        exchange-Covers (sender_after d x) (receiver_after e x).0 rounds
            (sender_after-IsSender d x s run_a run_a') after.0 more,
      )

  -- A persistent send and a persistent receive without wildcards, neither to `MPI_PROC_NULL`, are
  -- started and completed any number of times while the tool runs and no request is cancelled. If the library
  -- delivers to each receive of the tool the values that the tool posted at that start of the send, then
  -- each time the critical path of the receiver is after the completion no shorter than that of the
  -- sender at the start, in each of the three clocks.
  pub restarted-Covers :
      (dest tag comm src tag' comm' : ℕ) (a b : Rank M) (rounds : List (Round M))
      → (dest == at_a.proc_null) ≡ false
      → (src == at_b.proc_null) ≡ false
      → is_exact at_b src tag' ≡ true
      → Delivers (send_init at_a idle dest tag comm a).0 rounds
      → All
          (λ p. Covers p.0 p.1)
          (exchange
            (send_init at_a idle dest tag comm a).0
            (recv_init at_b idle src tag' comm' b).0
            rounds)
  restarted-Covers dest tag comm src tag' comm' a b rounds to from exact h =
      exchange-Covers _ _ rounds (send_init-IsSender dest tag comm a to)
        (recv_init-IsReceiver src tag' comm' b from exact) h
