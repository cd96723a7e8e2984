-- ===== src/Openmp/Calls/Return.antt =====
-- Sequences of callbacks, src/ompt-critical.cpp: what holds in the states that they lead to.
use otf_cpt.Common.{ℕ, Bool, Option, none, some, ◌≡◌, sym, ap, subst, some-injective, ◌∙◌}
use otf_cpt.Common.Int.{ℤ}
use otf_cpt.Clock.Metric.{Metric}
use otf_cpt.Clock.Thread.{ThreadClock}
use otf_cpt.Clock.Activity.{IsStack}
use otf_cpt.Openmp.Calls.{
  Callback, on_parallel_begin, on_parallel_end, on_implicit_begin, on_implicit_end, on_sync_region,
  on_sync_region_wait, on_task_create, on_dependences, on_task_schedule, on_mutex_acquire,
  on_mutex_acquired, on_mutex_released, on_control_tool, Allowed, run_callback, Reach, start, begin,
  call,
}
use otf_cpt.Openmp.Objects.{Sizes}
use otf_cpt.Openmp.Threads.{thread_begin, parallel_begin, implicit_task_begin, control_tool}
use otf_cpt.Openmp.Create.{task_create}
use otf_cpt.Tool.World.{World}
use otf_cpt.Tool.Action.{Act, ◌>>=◌, done}
use otf_cpt.Openmp.Returns.Valid.{IsListed, IsValid, Begun, AreLinked}
use otf_cpt.Openmp.Returns.Initialize.{initialize-Ran}
use otf_cpt.Openmp.Returns.Ran.{Ran, Ran-some}
use otf_cpt.Openmp.Returns.Good.{Good, Ends, then-Good}
use otf_cpt.Openmp.Returns.Begin.{thread_begin-Ends}
use otf_cpt.Openmp.Returns.Threads.{
  parallel_begin-Ends, parallel_end-Ends, implicit_task_begin-Ends, implicit_task_end-Ends,
  mutex_acquire-Ends,
}
use otf_cpt.Openmp.Returns.Sync.{sync_region-Ends, sync_region_wait-Ends}
use otf_cpt.Openmp.Returns.Dependences.{dependences-Ends, task_create-Ends}
use otf_cpt.Openmp.Returns.Schedule.{task_schedule-Ends}
use otf_cpt.Openmp.Returns.Locks.{mutex_acquired-Ends, mutex_released-Ends}
use otf_cpt.Openmp.Returns.Control.{control_tool-Ends}

module _ {M : Type 0} ⦃metric : Metric M⦄ where
  -- The call returned, and its state is valid.
  pub record Answered (t : ℕ) (r : Option (Unit {0} × World M)) : Type 0 where
    pub after : World M
    pub returned : r ≡ some (tt, after)
    pub stacks : (u : ℕ) (tc : ThreadClock M) → after.threads u ≡ some tc → IsStack tc.stack
    pub linked : AreLinked after.objects
    pub listed : IsListed after
    pub begun : Begun t after

  abbrev answered : {t : ℕ} {r : Option (Unit {0} × World M)} → Ends t r → Answered t r
  answered e = record {
    after = e.after;
    returned = e.returned;
    stacks = λ u tc p. (e.post.valid.timed.threads u tc p).stack;
    linked = e.post.valid.linked;
    listed = e.post.valid.listed;
    begun = e.post.begun;
  }

module _ {M : Type 0} ⦃metric : Metric M⦄ (sizes : Sizes) (runtime : ℤ) where
  drop-Ends :
      {A : Type 0} {t : ℕ} (m : Act M A) (w : World M) → Ends t (m w) → Ends t ((m >>= λ a. done) w)
  drop-Ends m w r = then-Good m (λ a. done) w r λ a w' g. Ran-some _ tt w' g

  run_callback-Ends :
      (t : ℕ) (c : Callback) (w : World M)
      → Allowed c w
      → Good t w
      → Ends t (run_callback sizes runtime t c w)
  unfolding run_callback
  run_callback-Ends t on_parallel_begin w h g =
      drop-Ends (parallel_begin sizes t) w (parallel_begin-Ends sizes w g)
  run_callback-Ends t (on_parallel_end x) w h g = parallel_end-Ends x w h g
  run_callback-Ends t (on_implicit_begin x num type) w h g =
      drop-Ends (implicit_task_begin sizes t x num type) w
        (implicit_task_begin-Ends sizes x num type w g)
  run_callback-Ends t (on_implicit_end x i type) w h g = implicit_task_end-Ends x i type w h.0 h.1 g
  run_callback-Ends t (on_sync_region kind endpoint has_parallel i) w h g =
      sync_region-Ends sizes kind endpoint has_parallel i w h g
  run_callback-Ends t (on_sync_region_wait kind endpoint i) w h g =
      sync_region_wait-Ends kind endpoint i w g
  run_callback-Ends t (on_task_create parent type) w h g =
      drop-Ends (task_create sizes t parent type) w (task_create-Ends sizes parent type w h g)
  run_callback-Ends t (on_dependences i deps) w h g = dependences-Ends sizes i deps w h g
  run_callback-Ends t (on_task_schedule status first second) w h g =
      task_schedule-Ends status first second w h g
  run_callback-Ends t on_mutex_acquire w h g = mutex_acquire-Ends w g
  run_callback-Ends t (on_mutex_acquired l) w h g = mutex_acquired-Ends l w h g
  run_callback-Ends t (on_mutex_released l) w h g = mutex_released-Ends l w h g
  run_callback-Ends t (on_control_tool command) w h g =
      drop-Ends (control_tool runtime t command) w (control_tool-Ends runtime command w g)

  -- Runs are functions of the state.
  ended :
      {t : ℕ} {r : Option (Unit {0} × World M)} {w' : World M}
      → Ends t r
      → r ≡ some (tt, w')
      → Good t w'
  ended {t} e p =
      subst (Good t)
        (ap (λ (q : Unit {0} × World M). q.1) (some-injective _ _ (sym e.returned ∙ p))) e.post

  ran :
      {Q : Unit {0} → World M → Type 0} {r : Option (Unit {0} × World M)} {w' : World M}
      → Ran Q r
      → r ≡ some (tt, w')
      → Q tt w'
  ran {Q} e p =
      subst (Q tt) (ap (λ (q : Unit {0} × World M). q.1) (some-injective _ _ (sym e.returned ∙ p)))
        e.post

  pub Reach-IsValid :
      {stopped dump : Bool} {times : ℕ → ℤ} {w : World M}
      → Reach sizes runtime stopped dump times w
      → IsValid w
  Reach-IsValid {stopped} {dump} {times} (start t e) =
      (ran (initialize-Ran t stopped dump times) e).0
  Reach-IsValid (begin {w} t is_initial r n e) =
      (ended (thread_begin-Ends t is_initial w (Reach-IsValid r)) e).valid
  Reach-IsValid (call {w} t c r b h e) =
      (ended (run_callback-Ends t c w h (record { valid = Reach-IsValid r; begun = b })) e).valid

  -- In every state that calls of the runtime lead to after the start of the tool, on any threads and in
  -- any order, a callback returns on a thread that has begun. The runtime has to keep to these rules: it
  -- passes tasks and teams that the tool has made; a task that meets a barrier has a team, one that ends
  -- a taskgroup is in one, one that has dependences has a parent, one that completes or is fulfilled
  -- late has a team and a parent, one that yields or switches comes with a task to run, and a fulfilled
  -- task or a completed taskwait is named; a lock is released that was acquired, and not acquired while
  -- it is held. Then the loops that give up completed tasks end, the taskgroups
  -- and tasks that they reach exist, and nothing is read from an empty stack or pool. In the state left,
  -- STATE_INIT is at the bottom of each thread's stack, what a task, a taskgroup or a pool refers to was
  -- made before, and the thread of the call and the listed threads have clocks and counters.
  pub Reach-run_callback :
      {stopped dump : Bool} {times : ℕ → ℤ} {w : World M} (t : ℕ) (c : Callback)
      → Reach sizes runtime stopped dump times w
      → Begun t w
      → Allowed c w
      → Answered t (run_callback sizes runtime t c w)
  Reach-run_callback {w = w} t c r b h =
      answered (run_callback-Ends t c w h (record { valid = Reach-IsValid r; begun = b }))

  -- In every state that calls of the runtime lead to after the start of the tool, the begin of a thread
  -- that has not begun returns, and leaves a valid state in which the thread has a clock and counters.
  -- That holds for the initial thread, whose clock the start of the tool has made, and for others.
  pub Reach-thread_begin :
      {stopped dump : Bool} {times : ℕ → ℤ} {w : World M} (t : ℕ) (is_initial : Bool)
      → Reach sizes runtime stopped dump times w
      → w.counts t ≡ none
      → Answered t (thread_begin t is_initial w)
  Reach-thread_begin {w = w} t is_initial r n =
      answered (thread_begin-Ends t is_initial w (Reach-IsValid r))
