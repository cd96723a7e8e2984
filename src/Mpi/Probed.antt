-- ===== src/Mpi/Probed.antt =====
-- The clocks that arrive with a message that was probed.
use otf_cpt.Common.{ℕ, ◌≡◌, refl, sym, subst, ◌∙◌, true, false, some, ◌==◌}
use otf_cpt.Clock.Message.{IpcData, mpi_happens_before, mpi_happens_after}
use otf_cpt.Clock.Metric.{Metric}
use otf_cpt.Mpi.Rank.{Library, Rank, log, wait_all}
use otf_cpt.Mpi.Blocking.{send, is_exact, take_up}
use otf_cpt.Mpi.Probe.{Matched, resolve, mprobe, mrecv_end, mrecv, imrecv}
use otf_cpt.Mpi.Pending.{new_data, complete, complete_hb, wait_pending}
use otf_cpt.Mpi.Carries.{Covers, last_posted, delivered-Covers, some-path, send-posts}

module _ {M : Type 0} ⦃metric : Metric M⦄ where
  -- What a probe that found a message keeps.
  record Keeps (library : Library) (src tag : ℕ) (status : ℕ × ℕ) (b : Rank M) (m : Matched)
      : Type 0 where
    req : m.r_data.pb_req ≡ some b.posted
    remote : m.remote ≡ (resolve library src tag status).0
    tag_is : m.tag ≡ (resolve library src tag status).1

  mprobe-Keeps :
      (library : Library) (idle : IpcData) (src tag comm : ℕ) (status : ℕ × ℕ) (b : Rank M)
      (m : Matched)
      → b.running ≡ true
      → (mprobe library idle true src tag comm status b).0 ≡ some m
      → Keeps library src tag status b m
  unfolding mprobe
  mprobe-Keeps library idle src tag comm status b m run e =
      let found : (mprobe library idle true src tag comm status b).0
          ≡ some (record {
            r_data = record { values = idle; pb_req = some b.posted };
            remote = (resolve library src tag status).0;
            tag = (resolve library src tag status).1;
            comm = comm;
          }) =
        rw run refl in
      subst (Keeps library src tag status b) (some-path (sym found ∙ e))
        (record { req = refl; remote = refl; tag_is = refl })

  mrecv-takes_up :
      (library : Library) (idle : IpcData) (status : ℕ × ℕ) (req : ℕ) (m : Matched) (c : Rank M)
      → c.running ≡ true
      → m.r_data.pb_req ≡ some req
      → (m.remote == library.proc_null) ≡ false
      → is_exact library m.remote m.tag ≡ true
      → (mrecv library idle m status c).clock
        ≡ mpi_happens_after true (library.delivered req) c.clock
  unfolding mrecv mrecv_end wait_all take_up log
  mrecv-takes_up library idle status req m c run r e x = rw (run, e, x, r) refl

  imrecv-takes_up :
      (library : Library) (idle : IpcData) (tag_left comm_left : ℕ) (status : ℕ × ℕ) (req : ℕ)
      (m : Matched) (c d : Rank M)
      → c.running ≡ true
      → d.running ≡ true
      → m.r_data.pb_req ≡ some req
      → (m.remote == library.proc_null) ≡ false
      → is_exact library m.remote tag_left ≡ true
      → (complete library idle (imrecv library idle tag_left comm_left m c).0 status d).clock
        ≡ mpi_happens_after true (library.delivered req) d.clock
  unfolding imrecv complete complete_hb wait_pending wait_all take_up new_data log
  imrecv-takes_up library idle tag_left comm_left status req m c d run_c run_d r e x =
      rw (run_c, e, x, r, run_d) refl

  -- A running process sends to a process, and a running process probes for a message, with or
  -- without wildcards, finds one, whose source is a process, and receives it in a later state, in which the
  -- tool is running. If the library delivers to the receive of the tool the values that the tool posted
  -- with the send, then the critical path of the receiver is afterwards no shorter than that of the
  -- sender at the send, in each of the three clocks.
  pub probed-Covers :
      (at_a at_b : Library) (idle : IpcData) (dest tag comm src tag' comm' : ℕ)
      (status status' : ℕ × ℕ) (a b c : Rank M) (m : Matched)
      → a.running ≡ true
      → b.running ≡ true
      → c.running ≡ true
      → (dest == at_a.proc_null) ≡ false
      → ((resolve at_b src tag' status).0 == at_b.proc_null) ≡ false
      → is_exact at_b (resolve at_b src tag' status).0 (resolve at_b src tag' status).1 ≡ true
      → (mprobe at_b idle true src tag' comm' status b).0 ≡ some m
      → last_posted (send at_a idle dest tag comm a).calls ≡ some (at_b.delivered b.posted)
      → Covers (mpi_happens_before a.clock) (mpi_happens_before (mrecv at_b idle m status' c).clock)
  probed-Covers at_a at_b idle dest tag comm src tag' comm' status status' a b c m run_a run_b run_c
        to from exact found e =
      let k = mprobe-Keeps at_b idle src tag' comm' status b m run_b found in
      let some_process : (m.remote == at_b.proc_null) ≡ false = rw k.remote from in
      let exact_now : is_exact at_b m.remote m.tag ≡ true = rw (k.remote, k.tag_is) exact in
      delivered-Covers _ _ _ _ _ (send-posts at_a idle dest tag comm a run_a to) e
        (mrecv-takes_up at_b idle status' b.posted m c run_c k.req some_process exact_now)

  -- A running process sends to a process, and a running process probes for a message, with or
  -- without wildcards, finds one, whose source is a process, and starts a non-blocking receive of it,
  -- which completes; in all these states the tool is running. If the tag that the receive leaves
  -- unset happens to be no wildcard, and the library delivers to the receive of the tool the values that
  -- the tool posted with the send, then the critical path of the receiver is after the completion
  -- no shorter than that of the sender at the send, in each of the three clocks.
  pub probed_request-Covers :
      (at_a at_b : Library) (idle : IpcData) (dest tag comm src tag' comm' : ℕ)
      (status status' : ℕ × ℕ) (tag_left comm_left : ℕ) (a b c d : Rank M) (m : Matched)
      → a.running ≡ true
      → b.running ≡ true
      → c.running ≡ true
      → d.running ≡ true
      → (dest == at_a.proc_null) ≡ false
      → ((resolve at_b src tag' status).0 == at_b.proc_null) ≡ false
      → is_exact at_b (resolve at_b src tag' status).0 tag_left ≡ true
      → (mprobe at_b idle true src tag' comm' status b).0 ≡ some m
      → last_posted (send at_a idle dest tag comm a).calls ≡ some (at_b.delivered b.posted)
      → Covers (mpi_happens_before a.clock) (
          mpi_happens_before
            (complete at_b idle (imrecv at_b idle tag_left comm_left m c).0 status' d).clock)
  probed_request-Covers at_a at_b idle dest tag comm src tag' comm' status status' tag_left
        comm_left a b c d m run_a run_b run_c run_d to from exact found e =
      let k = mprobe-Keeps at_b idle src tag' comm' status b m run_b found in
      let some_process : (m.remote == at_b.proc_null) ≡ false = rw k.remote from in
      let exact_now : is_exact at_b m.remote tag_left ≡ true = rw k.remote exact in
      delivered-Covers _ _ _ _ _ (send-posts at_a idle dest tag comm a run_a to) e (
        imrecv-takes_up at_b idle tag_left comm_left status' b.posted m c d run_c run_d k.req
          some_process exact_now)
