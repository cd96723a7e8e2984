-- ===== src/Openmp/Returns/Valid.antt =====
-- What the callbacks keep true of the tool's state, and what they need of the thread that they are
-- called on.
use otf_cpt.Common.{ℕ, ◌<◌, ◌≡◌, ◌∙◌, ap, subst, sym, Option, some, List, [], ◌∷◌, All, Bool}
use otf_cpt.Common.Int.{ℤ}
use otf_cpt.Clock.Metric.{Metric}
use otf_cpt.Clock.Thread.{ThreadClock}
use otf_cpt.Clock.Ordered.{AreOrdered, new_sync-AreOrdered}
use otf_cpt.Clock.System.{IsThread}
use otf_cpt.Openmp.Pool.Filled.{IsFilled, new_pools-IsFilled}
use otf_cpt.Tool.World.{World, Objects, OmptCounts, TaskData, SyncRef, initial_world}

pub All-imp :
    {A : Type 0} {P Q : A → Type 0} → ((a : A) → P a → Q a) → (l : List A) → All P l → All Q l
All-imp f [] all = tt
All-imp f (a ∷ l) all = (f a all.0, All-imp f l all.1)

-- How many objects of the pools exist.
pub record Extent : Type 0 where
  pub tasks : ℕ
  pub groups : ℕ
  pub depends : ℕ

abbrev pub extent_of : Objects → Extent
extent_of o = record {
  tasks = o.task_pool.created;
  groups = o.group_pool.created;
  depends = o.depend_pool.created;
}

-- What a task refers to.
pub record Links : Type 0 where
  pub parent : Option ℕ
  pub group : Option ℕ
  pub map : List (ℕ × ℕ)

abbrev pub links_of : TaskData → Links
links_of d = record { parent = d.parent; group = d.task_group; map = d.dependency_map }

-- What task `i` refers to exists.
pub record IsTask (z : Extent) (i : ℕ) (l : Links) : Type 0 where
  pub parent : (p : ℕ) → l.parent ≡ some p → (i < z.tasks) × (p < z.tasks)
  pub group : (g : ℕ) → l.group ≡ some g → g < z.groups
  pub map : All (λ (e : ℕ × ℕ). e.1 < z.depends) l.map

pub record AreLinked (o : Objects) : Type 0 where
  pub task_pool : IsFilled o.task_pool
  pub team_pool : IsFilled o.team_pool
  pub group_pool : IsFilled o.group_pool
  pub depend_pool : IsFilled o.depend_pool
  pub tasks : (i : ℕ) → IsTask (extent_of o) i (links_of (o.tasks i))
  pub groups : (g p : ℕ) → o.group_parent g ≡ some p → p < o.group_pool.created

module _ {M : Type 0} ⦃metric : Metric M⦄ where
  pub record IsTimed (w : World M) : Type 0 where
    pub threads : (t : ℕ) (tc : ThreadClock M) → w.threads t ≡ some tc → IsThread tc
    pub syncs : (r : SyncRef) → AreOrdered (w.syncs r).clocks

  -- `ompt_tsan_thread_begin` has run on thread `t`.
  pub record Begun (t : ℕ) (w : World M) : Type 0 where
    pub clock : (tc : ThreadClock M) × (w.threads t ≡ some tc)
    pub counters : (c : OmptCounts) × (w.counts t ≡ some c)

  -- Every thread of the lists has begun.
  pub record IsListed (w : World M) : Type 0 where
    pub clocks : All (λ t. Begun t w) w.thread_clocks
    pub counters : All (λ t. Begun t w) w.thread_counts

  pub record IsValid (w : World M) : Type 0 where
    pub timed : IsTimed w
    pub linked : AreLinked w.objects
    pub listed : IsListed w

  pub IsListed-map :
      {w w' : World M}
      → ((t : ℕ) → Begun t w → Begun t w')
      → w'.thread_clocks ≡ w.thread_clocks
      → w'.thread_counts ≡ w.thread_counts
      → IsListed w
      → IsListed w'
  IsListed-map {w} {w'} f p q l = record {
    clocks = subst (All (λ t. Begun t w')) (sym p) (All-imp f w.thread_clocks l.clocks);
    counters = subst (All (λ t. Begun t w')) (sym q) (All-imp f w.thread_counts l.counters);
  }

  -- The same, where only members of the state that do not matter differ.
  pub IsListed-same :
      {w w' : World M}
      → w'.threads ≡ w.threads
      → w'.counts ≡ w.counts
      → w'.thread_clocks ≡ w.thread_clocks
      → w'.thread_counts ≡ w.thread_counts
      → IsListed w
      → IsListed w'
  IsListed-same e f p q l =
      IsListed-map
        (λ t b. record {
          clock = (b.clock.0, ap (λ (v : ℕ → Option (ThreadClock M)). v t) e ∙ b.clock.1);
          counters = (b.counters.0, ap (λ (v : ℕ → Option OmptCounts). v t) f ∙ b.counters.1);
        })
        p q l

  pub initial_world-IsValid :
      (stopped dump : Bool) (times : ℕ → ℤ) → IsValid (initial_world stopped dump times)
  unfolding initial_world
  initial_world-IsValid stopped dump times = record {
    timed = record { threads = λ t tc e. cc; syncs = λ r. new_sync-AreOrdered };
    linked = record {
      task_pool = new_pools-IsFilled;
      team_pool = new_pools-IsFilled;
      group_pool = new_pools-IsFilled;
      depend_pool = new_pools-IsFilled;
      tasks = λ i. record { parent = λ p e. cc; group = λ g e. cc; map = tt };
      groups = λ g p e. cc;
    };
    listed = record { clocks = tt; counters = tt };
  }
