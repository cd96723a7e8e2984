-- ===== src/Clock/System.antt =====
-- The threads of a process and the synchronisation clocks that they share, while the tool runs:
-- each call of a callback on one thread is one step, and the steps of the threads interleave. That a
-- call on a synchronisation clock is not interrupted is what the lock of the build with
-- `DependentMetric` gives; the build with `TimeMetric` takes no lock there.
use mathlib.Core.Path.{subst}
use otf_cpt.Common.{
  ℕ, true, Option, some, List, [], ◌∷◌, ◌≡◌, refl, inl, inr, arith, update, update-All, Bool-cases,
}
use otf_cpt.Common.Int.{pos}
use otf_cpt.Clock.State.{ClockState, state_init, ClockType, same_state}
use otf_cpt.Clock.Metric.{Metric}
use otf_cpt.Clock.Metric.Dependent.{DependentMetric, dependent_metric}
use otf_cpt.Clock.Thread.{ThreadClock, get_state, new_clock}
use otf_cpt.Clock.Sync.{
  SyncClock, new_sync, check_arc, merge_after, release_in, happens_before, happens_after,
  clock_reset,
}
use otf_cpt.Clock.Message.{IpcData, mpi_happens_after}
use otf_cpt.Clock.Activity.{Event, IsStack, top, step}
use otf_cpt.Clock.Accounting.{moved, step-moved, next-IsStack}
use otf_cpt.Clock.Ordered.{
  IsOrdered, AreOrdered, new_sync-AreOrdered, new_clock-AreOrdered, switch_state-AreOrdered,
  merge_after-AreOrdered, release_in-AreOrdered, clock_reset-AreOrdered,
  mpi_happens_after-AreOrdered,
}

pub record System (M : Type 0) : Type 0 where
  pub threads : ℕ → ThreadClock M
  pub syncs : ℕ → SyncClock M

pub get_state-top : (stack : List ClockState) → IsStack stack → get_state stack ≡ some (top stack)
get_state-top [] h = elim h [ ]
get_state-top (s ∷ r) h = refl

same_value {ℓ} : {A : Type ℓ} {o : Option A} {a b : A} → o ≡ some a → o ≡ some b → a ≡ b
same_value p q = cc

module _ {M : Type 0} ⦃metric : Metric M⦄ where
  -- Thread `n` changes its activity, releases or acquires through clock `k`, resets it, or takes up
  -- the clocks of a message, whatever that holds.
  pub data Step (s : System M) (u : System M) : Type 0 where
    move :
        (n : ℕ) (e : Event) (tc : ThreadClock M)
        → step e (s.threads n) ≡ some tc
        → u ≡ record s { threads = update s.threads n tc }
        → Step s u
    release :
        (n k : ℕ) (sc : SyncClock M)
        → happens_before true (s.syncs k) (s.threads n) ≡ some sc
        → u ≡ record s { syncs = update s.syncs k sc }
        → Step s u
    acquire :
        (n k : ℕ) (sc : SyncClock M) (tc : ThreadClock M)
        → happens_after true (s.syncs k) (s.threads n) ≡ some (sc, tc)
        → u ≡ record { threads = update s.threads n tc; syncs = update s.syncs k sc }
        → Step s u
    clear :
        (k : ℕ)
        → u ≡ record s { syncs = update s.syncs k (clock_reset true (s.syncs k)) }
        → Step s u
    receive :
        (n : ℕ) (uc : IpcData)
        → u ≡ record s { threads = update s.threads n (mpi_happens_after true uc (s.threads n)) }
        → Step s u

  pub data Reach (s : System M) : System M → Type 0 where
    here : Reach s s
    then : {t u : System M} → Reach s t → Step t u → Reach s u

  -- STATE_INIT is at the bottom of a thread's stack, and its clocks are ordered.
  pub record IsThread (tc : ThreadClock M) : Type 0 where
    pub stack : IsStack tc.stack
    pub ordered : AreOrdered tc.clocks

  pub record IsValid (s : System M) : Type 0 where
    pub threads : (n : ℕ) → IsThread (s.threads n)
    pub syncs : (k : ℕ) → AreOrdered (s.syncs k).clocks

  pub step-eq : (e : Event) (tc : ThreadClock M) → IsThread tc → step e tc ≡ some (moved e tc)
  step-eq e tc v =
      step-moved e.now e.time e.op tc.thread_id tc.openmp_thread tc.clocks tc.stack v.stack

  pub happens_before-eq :
      (sc : SyncClock M) (tc : ThreadClock M)
      → IsStack tc.stack
      → happens_before true sc tc ≡ some (release_in (top tc.stack) tc sc)
  unfolding happens_before
  happens_before-eq sc tc h = rw (get_state-top tc.stack h)

  pub moved-IsThread : (e : Event) (tc : ThreadClock M) → IsThread tc → IsThread (moved e tc)
  unfolding moved
  moved-IsThread e tc v = record {
    stack = next-IsStack e.op tc.stack v.stack;
    ordered = switch_state-AreOrdered e.now e.time _ _ tc.clocks v.ordered;
  }

  unfoldable pub acquired : SyncClock M → ThreadClock M → ThreadClock M
  acquired sc tc = record tc { clocks = merge_after sc.clocks tc.clocks }

  pub happens_after-eq :
      (sc : SyncClock M) (tc : ThreadClock M)
      → IsStack tc.stack
      → happens_after true sc tc ≡ some ((check_arc (top tc.stack) sc).0, acquired sc tc)
  unfolding happens_after acquired
  happens_after-eq sc tc h = rw (get_state-top tc.stack h)

  pub acquired-IsThread :
      (sc : SyncClock M) (tc : ThreadClock M)
      → AreOrdered sc.clocks
      → IsThread tc
      → IsThread (acquired sc tc)
  unfolding acquired
  acquired-IsThread sc tc o v = record {
    stack = v.stack;
    ordered = merge_after-AreOrdered sc.clocks tc.clocks o v.ordered;
  }

  pub check_arc-AreOrdered :
      (x : ClockState) (sc : SyncClock M)
      → AreOrdered sc.clocks
      → AreOrdered (check_arc x sc).0.clocks
  unfolding check_arc
  check_arc-AreOrdered x sc o = elim (Bool-cases (same_state sc.sync_state state_init)) [
    | inl e ↦ rw e o
    | inr e ↦ rw e o
  ]

  receive-IsThread :
      (uc : IpcData) (tc : ThreadClock M) → IsThread tc → IsThread (mpi_happens_after true uc tc)
  receive-IsThread uc tc v = record {
    stack = unfold mpi_happens_after in v.stack;
    ordered = mpi_happens_after-AreOrdered true uc tc v.ordered;
  }

  -- Every step keeps the system valid.
  pub Step-IsValid : {s u : System M} → IsValid s → Step s u → IsValid u
  Step-IsValid {s} v (move n e tc p q) = rw q (record {
    threads =
        update-All IsThread s.threads n tc
          (subst IsThread (same_value (step-eq e (s.threads n) (v.threads n)) p)
            (moved-IsThread e (s.threads n) (v.threads n)))
          v.threads;
    syncs = v.syncs;
  })
  Step-IsValid {s} v (release n k sc p q) = rw q (record {
    threads = v.threads;
    syncs =
        update-All (λ c. AreOrdered c.clocks) s.syncs k sc
          (subst (λ c. AreOrdered c.clocks)
            (same_value (happens_before-eq (s.syncs k) (s.threads n) (v.threads n).stack) p)
            (release_in-AreOrdered _ (s.threads n) (s.syncs k) (v.syncs k) (v.threads n).ordered))
          v.syncs;
  })
  Step-IsValid {s} v (acquire n k sc tc p q) =
      let e = same_value (happens_after-eq (s.syncs k) (s.threads n) (v.threads n).stack) p in
      rw q (record {
        threads =
            update-All IsThread s.threads n tc
              (subst IsThread (λ i. (e i).1)
                (acquired-IsThread (s.syncs k) (s.threads n) (v.syncs k) (v.threads n)))
              v.threads;
        syncs =
            update-All (λ c. AreOrdered c.clocks) s.syncs k sc
              (subst (λ c. AreOrdered c.clocks) (λ i. (e i).0)
                (check_arc-AreOrdered _ (s.syncs k) (v.syncs k)))
              v.syncs;
      })
  Step-IsValid {s} v (clear k q) = rw q (record {
    threads = v.threads;
    syncs =
        update-All (λ c. AreOrdered c.clocks) s.syncs k _
          (clock_reset-AreOrdered true (s.syncs k) (v.syncs k)) v.syncs;
  })
  Step-IsValid {s} v (receive n uc q) = rw q (record {
    threads =
        update-All IsThread s.threads n _ (receive-IsThread uc (s.threads n) (v.threads n))
          v.threads;
    syncs = v.syncs;
  })

  pub Reach-IsValid : {s u : System M} → IsValid s → Reach s u → IsValid u
  Reach-IsValid v here = v
  Reach-IsValid v (then r st) = Step-IsValid (Reach-IsValid v r) st

  -- A process that has not measured anything yet.
  unfoldable pub initial : System M
  initial = record { threads = λ n. new_clock n (pos 0) true; syncs = λ k. new_sync }

  pub initial-IsValid : IsValid initial
  unfolding initial new_clock
  initial-IsValid = record {
    threads =
        λ n. record { stack = refl; ordered = new_clock-AreOrdered n (pos 0) true (omega arith) };
    syncs = λ k. new_sync-AreOrdered;
  }

  -- What the callbacks of thread `n` return, for any call and any synchronisation clock.
  pub record Returns (u : System M) (n : ℕ) : Type 0 where
    pub moves : (e : Event) → (tc : ThreadClock M) × (step e (u.threads n) ≡ some tc)
    pub releases :
        (k : ℕ) → (sc : SyncClock M) × (happens_before true (u.syncs k) (u.threads n) ≡ some sc)
    pub acquires :
        (k : ℕ)
        → (r : SyncClock M × ThreadClock M) × (happens_after true (u.syncs k) (u.threads n)
            ≡ some r)

  -- In every reachable system every callback of every thread returns: none of them reads the state
  -- stack of its thread before its begin.
  pub Reach-Returns : {u : System M} (n : ℕ) → Reach initial u → Returns u n
  Reach-Returns {u} n r =
      let v = (Reach-IsValid initial-IsValid r).threads n in
      record {
        moves = λ e. (_, step-eq e (u.threads n) v);
        releases = λ k. (_, happens_before-eq (u.syncs k) (u.threads n) v.stack);
        acquires = λ k. (_, happens_after-eq (u.syncs k) (u.threads n) v.stack);
      }

-- In the build with `DependentMetric`, where a lock keeps the calls on a synchronisation clock apart: in
-- every system that the threads of a process can reach, by any interleaving of their calls and with any
-- messages, each thread's reading of each clock is ordered: the thread-local one is at most the
-- process-local one, and that is at most the one on the critical path.
pub Reach-IsOrdered :
    {u : System DependentMetric} (n : ℕ) (i : ClockType)
    → Reach initial u
    → IsOrdered ((u.threads n).clocks i)
Reach-IsOrdered n i r = ((Reach-IsValid initial-IsValid r).threads n).ordered i
