-- ===== src/Clock/Accounting.antt =====
-- The clocks of a thread measure the time spent in its activities.
use otf_cpt.Common.{
  ℕ, Bool, true, false, some, List, [], ◌∷◌, ◌≡◌, refl, ◌∙◌, inl, inr, arith, Bool-cases,
}
use otf_cpt.Common.Int.{ℤ, neg, ◌+ℤ◌, ◌-ℤ◌, int_laws}
use otf_cpt.Clock.State.{ClockState, state_init, ClockType, state, same_state}
use otf_cpt.Clock.Metric.{Metric}
use otf_cpt.Clock.CpClocks.{CpClocks, Clocks, add_all}
use otf_cpt.Clock.Thread.{ThreadClock, effective, switch_clock, switch_state}
use otf_cpt.Clock.Activity.{
  Op, enter, exit, stop, Event, at, IsStack, top, next, final, end, spent, counted, Part, thread,
  proc, critical, time_of, step, run, reading,
}

same_state-eq : (s t : ClockState) → same_state s t ≡ true → s ≡ t
unfolding same_state
same_state-eq s t h = ground arith

same_state_refl : (s : ClockState) → same_state s s ≡ true
unfolding same_state
same_state_refl s = ground arith

-- No call takes the bottom off the stack.
pub next-IsStack : (op : Op) (stack : List ClockState) → IsStack stack → IsStack (next op stack)
next-IsStack op [] h = elim h [ ]
next-IsStack (enter s) (x ∷ r) h = h
next-IsStack (exit false) (x ∷ r) h = h
next-IsStack (exit true) (x ∷ []) h = rw (h, same_state_refl state_init)
next-IsStack (exit true) (x ∷ y ∷ r) h = elim (Bool-cases (same_state x state_init)) [
  | inl e ↦ rw e h
  | inr e ↦ rw e h
]
next-IsStack stop (x ∷ []) h = refl
next-IsStack stop (x ∷ y ∷ r) h = h

-- Between two calls a clock advances exactly if it runs.
reading-later : (b : Bool) (t u v : ℤ) → reading b u v ≡ reading b t v +ℤ counted b (u -ℤ t)
reading-later true t u v = omega int_laws
reading-later false t u v = omega int_laws

module _ {M : Type 0} ⦃metric : Metric M⦄ where
  time_of-add_all : (p : Part) (t : ℤ) (c : CpClocks M) → time_of p (add_all t c) ≡ time_of p c +ℤ t
  unfolding add_all
  time_of-add_all thread t c = metric.get_time-add c.thread t
  time_of-add_all proc t c = metric.get_time-add c.proc t
  time_of-add_all critical t c = metric.get_time-add c.critical t

  -- Starting or stopping a clock does not change what it shows at that time.
  reading-switch_clock :
      (p : Part) (old new : Bool) (t : ℤ) (c : CpClocks M)
      → reading new t (time_of p (switch_clock old new t c)) ≡ reading old t (time_of p c)
  unfolding switch_clock
  reading-switch_clock p false true t c = rw (time_of-add_all p (neg t) c) (omega int_laws)
  reading-switch_clock p true false t c = time_of-add_all p t c
  reading-switch_clock p false false t c = refl
  reading-switch_clock p true true t c = refl

  pub reading-switch_state :
      (p : Part) (i : ClockType) (now time : ℤ) (old new : ClockState) (cs : Clocks M)
      → let t = effective now time in
        reading (state new i) t (time_of p (switch_state now old new time cs i))
        ≡ reading (state old i) t (time_of p (cs i))
  unfolding switch_state
  reading-switch_state p i now time old new cs = elim (Bool-cases (same_state old new)) [
    | inl e ↦ rw (e, same_state-eq old new e)
    | inr e ↦ rw e (reading-switch_clock p (state old i) (state new i) (effective now time) (cs i))
  ]

  -- What a call on a running tool leaves.
  unfoldable pub moved : Event → ThreadClock M → ThreadClock M
  moved e tc = record tc {
    clocks = switch_state e.now (top tc.stack) (top (next e.op tc.stack)) e.time tc.clocks;
    stack = next e.op tc.stack;
  }

  switch_state_self :
      (now time : ℤ) (s : ClockState) (cs : Clocks M) → switch_state now s s time cs ≡ cs
  unfolding switch_state
  switch_state_self now time s cs = rw (same_state_refl s)

  pub step-moved :
      (now time : ℤ) (op : Op) (id : ℕ) (omp : Bool) (cs : Clocks M) (stack : List ClockState)
      → IsStack stack
      → let e : Event = record { now = now; time = time; op = op } in
        let tc : ThreadClock M = record {
          thread_id = id;
          openmp_thread = omp;
          clocks = cs;
          stack = stack;
        } in
        step e tc ≡ some (moved e tc)
  unfolding step moved
  step-moved now time (enter s) id omp cs (x ∷ r) h = refl
  step-moved now time stop id omp cs (x ∷ r) h = refl
  step-moved now time (exit false) id omp cs (x ∷ r) h = rw (same_state_refl x)
  step-moved now time (exit true) id omp cs (x ∷ []) h = rw h
  step-moved now time (exit true) id omp cs (x ∷ y ∷ r) h =
      elim (Bool-cases (same_state x state_init)) [
        | inl e ↦ rw (e, same_state_refl x)
        | inr e ↦ rw e
      ]
  step-moved now time op id omp cs [] h = elim h [ ]

  -- What a run of calls leaves, started at `tc` at the time `t`.
  pub record Accounts (es : List Event) (tc tc' : ThreadClock M) : Type 0 where
    pub returned : run es tc ≡ some tc'
    pub stack : tc'.stack ≡ final es tc.stack
    pub shows :
        (p : Part) (i : ClockType) (t : ℤ)
        → reading (state (top tc'.stack) i) (end t es) (time_of p (tc'.clocks i))
          ≡ reading (state (top tc.stack) i) t (time_of p (tc.clocks i)) +ℤ spent i t tc.stack es

  -- On a running tool every sequence of calls of `enterState`, `exitState` and
  -- `setState(STATE_INIT)`, at any times and from any thread clock whose stack has STATE_INIT at
  -- its bottom, returns; it leaves the stack that the calls describe, and each component of each of
  -- the four clocks has grown by exactly the time spent in activities in which that clock runs.
  pub run-Accounts :
      (es : List Event) (tc : ThreadClock M)
      → IsStack tc.stack
      → (tc' : ThreadClock M) × Accounts es tc tc'
  unfolding run moved
  run-Accounts [] tc h =
      (tc, record { returned = refl; stack = refl; shows = λ p i t. omega int_laws })
  run-Accounts (e ∷ es) tc h =
      let (tc', a) = run-Accounts es (moved e tc) (next-IsStack e.op tc.stack h) in
      (
        tc',
        record {
          returned =
              rw
                (
                  run,
                  step-moved e.now e.time e.op tc.thread_id tc.openmp_thread tc.clocks tc.stack h,
                )
                a.returned;
          stack = a.stack;
          shows = λ p i t.
              a.shows p i (at e)
              ∙ (rw
                  (
                    reading-switch_state p i e.now e.time (top tc.stack) (top (next e.op tc.stack))
                        tc.clocks,
                    reading-later (state (top tc.stack) i) t (at e) (time_of p (tc.clocks i)),
                  )
                  (omega int_laws));
        },
      )
