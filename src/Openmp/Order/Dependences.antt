-- ===== src/Openmp/Order/Dependences.antt =====
-- `AnnotateEnd` and `AnnotateBegin` of src/ompt-critical.cpp, and which dependences OpenMP orders.
use otf_cpt.Common.{
  ℕ, ◌≡◌, sym, subst, Option, some, none, Bool, true, false, List, [], ◌∷◌, ◌++◌, some-injective,
}
use otf_cpt.Common.Int.{ℤ}
use otf_cpt.Clock.State.{ClockType}
use otf_cpt.Clock.Metric.{Metric}
use otf_cpt.Clock.Activity.{Part}
use otf_cpt.Clock.Barrier.{IsShared}
use otf_cpt.Openmp.Dependences.{
  annotate_end, annotate_begin, acquire_all, release_dependencies, acquire_dependencies,
}
use otf_cpt.Openmp.Order.{Covers, Ready, Has}
use otf_cpt.Openmp.Order.Flows.{
  Flows, Leaves, Gets, release-Flows, release-Leaves, acquire-Flows, acquire-Gets, done-Flows,
  Flows-bind, Leaves-first, Leaves-later, Gets-first, Gets-later,
}
use otf_cpt.Openmp.Returns.Ran.{Ran, Ran-imp, Ran-bind}
use otf_cpt.Tool.World.{
  World, TaskDependency, DependenceType, dep_in, dep_out, dep_inout, dep_mutexinoutset,
  dep_inoutset, SyncRef, in_clock, out_clock, inoutset_clock,
}
use otf_cpt.Tool.Action.{Act, ◌>>◌, release, acquire}

-- What a dependence says of the variable, in the words of OpenMP: tasks that read it may run together,
-- and so may tasks of one inoutset.
pub data Access : Type 0 where
  reads writes joins : Access

abbrev pub access : DependenceType → Option Access
access dep_in = some reads
access dep_out = some writes
access dep_inout = some writes
access dep_mutexinoutset = some writes
access dep_inoutset = some joins
access _ = none

abbrev pub are_ordered : Access → Access → Bool
are_ordered reads reads = false
are_ordered joins joins = false
are_ordered _ _ = true

own_clock : Access → ℕ → SyncRef
own_clock reads d = in_clock d
own_clock writes d = out_clock d
own_clock joins d = inoutset_clock d

module _ {M : Type 0} ⦃metric : Metric M⦄ (p : Part) (i : ClockType) (shared : IsShared p i)
    (b : ℤ) where
  end-Flows :
      (t d : ℕ) (type : DependenceType)
      → Flows {M = M} p i shared b t (annotate_end t (record { depend = d; type = type }))
  unfolding annotate_end
  end-Flows t d dep_in = release-Flows p i shared b t _
  end-Flows t d dep_out = release-Flows p i shared b t _
  end-Flows t d dep_inout = release-Flows p i shared b t _
  end-Flows t d dep_mutexinoutset = release-Flows p i shared b t _
  end-Flows t d dep_inoutset = release-Flows p i shared b t _
  end-Flows t d _ = done-Flows p i shared b t

  released :
      (t d : ℕ) (known a : Access)
      → some known ≡ some a
      → Leaves {M = M} p i shared b t (own_clock a d) (release t (own_clock known d))
  released t d known a e =
      subst (λ a. Leaves {M = M} p i shared b t (own_clock a d) (release t (own_clock known d)))
        (some-injective _ _ e) (release-Leaves p i shared b t (own_clock known d))

  end-Leaves :
      (t d : ℕ) (type : DependenceType) (a : Access)
      → access type ≡ some a
      → Leaves {M = M} p i shared b t
          (own_clock a d)
          (annotate_end t (record { depend = d; type = type }))
  unfolding annotate_end own_clock
  end-Leaves t d dep_in a e = released t d reads a e
  end-Leaves t d dep_out a e = released t d writes a e
  end-Leaves t d dep_inout a e = released t d writes a e
  end-Leaves t d dep_mutexinoutset a e = released t d writes a e
  end-Leaves t d dep_inoutset a e = released t d joins a e
  end-Leaves t d _ a e = absurd (let no : ⊥ = cc in no)

  all-Flows : (t d : ℕ) → Flows {M = M} p i shared b t (acquire_all t d)
  unfolding acquire_all
  all-Flows t d = Flows-bind p i shared b _ _ (acquire-Flows p i shared b t _) (
      Flows-bind p i shared b _ _ (acquire-Flows p i shared b t _) (acquire-Flows p i shared b t _))

  two-Flows : (t : ℕ) (q r : SyncRef) → Flows {M = M} p i shared b t (acquire t q >> acquire t r)
  two-Flows t q r =
      Flows-bind p i shared b _ _ (acquire-Flows p i shared b t q) (acquire-Flows p i shared b t r)

  begin-Flows :
      (t d : ℕ) (type : DependenceType)
      → Flows {M = M} p i shared b t (annotate_begin t (record { depend = d; type = type }))
  unfolding annotate_begin
  begin-Flows t d dep_in = two-Flows t _ _
  begin-Flows t d dep_out = all-Flows t d
  begin-Flows t d dep_inout = all-Flows t d
  begin-Flows t d dep_mutexinoutset = all-Flows t d
  begin-Flows t d dep_inoutset = two-Flows t _ _
  begin-Flows t d _ = done-Flows p i shared b t

  -- The clocks that a dependence with the access acquires.
  acquire_for : ℕ → Access → ℕ → Act M (Unit {0})
  acquire_for t writes d = acquire_all t d
  acquire_for t reads d = acquire t (out_clock d) >> acquire t (inoutset_clock d)
  acquire_for t joins d = acquire t (in_clock d) >> acquire t (out_clock d)

  for-Gets :
      (t d : ℕ) (a c : Access)
      → are_ordered a c ≡ true
      → Gets {M = M} p i shared b t (own_clock a d) (acquire_for t c d)
  unfolding acquire_for acquire_all own_clock
  for-Gets t d reads reads e = absurd (let no : ⊥ = cc in no)
  for-Gets t d joins joins e = absurd (let no : ⊥ = cc in no)
  for-Gets t d reads writes e =
      Gets-first p i shared b _ _ (acquire-Gets p i shared b t _) (two-Flows t _ _)
  for-Gets t d writes writes e =
      Gets-later p i shared b _ _ (acquire-Flows p i shared b t _) (
        Gets-first p i shared b _ _ (acquire-Gets p i shared b t _)
          (acquire-Flows p i shared b t _))
  for-Gets t d joins writes e =
      Gets-later p i shared b _ _ (acquire-Flows p i shared b t _) (
        Gets-later p i shared b _ _ (acquire-Flows p i shared b t _)
          (acquire-Gets p i shared b t _))
  for-Gets t d writes reads e =
      Gets-first p i shared b _ _ (acquire-Gets p i shared b t _) (acquire-Flows p i shared b t _)
  for-Gets t d joins reads e =
      Gets-later p i shared b _ _ (acquire-Flows p i shared b t _) (acquire-Gets p i shared b t _)
  for-Gets t d reads joins e =
      Gets-first p i shared b _ _ (acquire-Gets p i shared b t _) (acquire-Flows p i shared b t _)
  for-Gets t d writes joins e =
      Gets-later p i shared b _ _ (acquire-Flows p i shared b t _) (acquire-Gets p i shared b t _)

  begin-Gets :
      (t d : ℕ) (type : DependenceType) (a c : Access)
      → access type ≡ some c
      → are_ordered a c ≡ true
      → Gets {M = M} p i shared b t
          (own_clock a d)
          (annotate_begin t (record { depend = d; type = type }))
  unfolding annotate_begin acquire_for
  begin-Gets t d dep_in a c e o =
      for-Gets t d a reads (subst (λ c. are_ordered a c ≡ true) (sym (some-injective _ _ e)) o)
  begin-Gets t d dep_out a c e o =
      for-Gets t d a writes (subst (λ c. are_ordered a c ≡ true) (sym (some-injective _ _ e)) o)
  begin-Gets t d dep_inout a c e o =
      for-Gets t d a writes (subst (λ c. are_ordered a c ≡ true) (sym (some-injective _ _ e)) o)
  begin-Gets t d dep_mutexinoutset a c e o =
      for-Gets t d a writes (subst (λ c. are_ordered a c ≡ true) (sym (some-injective _ _ e)) o)
  begin-Gets t d dep_inoutset a c e o =
      for-Gets t d a joins (subst (λ c. are_ordered a c ≡ true) (sym (some-injective _ _ e)) o)
  begin-Gets t d _ a c e o = absurd (let no : ⊥ = cc in no)

  pub releases-Flows :
      (t : ℕ) (l : List TaskDependency) → Flows {M = M} p i shared b t (release_dependencies t l)
  unfolding release_dependencies
  releases-Flows t [] = done-Flows p i shared b t
  releases-Flows t (d ∷ l) =
      Flows-bind p i shared b _ _ (end-Flows t d.depend d.type) (releases-Flows t l)

  releases-Leaves :
      (t : ℕ) (l r : List TaskDependency) (d : TaskDependency) (a : Access)
      → access d.type ≡ some a
      → Leaves {M = M} p i shared b t (own_clock a d.depend) (release_dependencies t (l ++ d ∷ r))
  unfolding release_dependencies
  releases-Leaves t [] r d a e =
      Leaves-first p i shared b _ _ (end-Leaves t d.depend d.type a e) (releases-Flows t r)
  releases-Leaves t (x ∷ l) r d a e =
      Leaves-later p i shared b _ _ (end-Flows t x.depend x.type) (releases-Leaves t l r d a e)

  acquires-Flows :
      (t : ℕ) (l : List TaskDependency) → Flows {M = M} p i shared b t (acquire_dependencies t l)
  unfolding acquire_dependencies
  acquires-Flows t [] = done-Flows p i shared b t
  acquires-Flows t (d ∷ l) =
      Flows-bind p i shared b _ _ (begin-Flows t d.depend d.type) (acquires-Flows t l)

  acquires-Gets :
      (t : ℕ) (l r : List TaskDependency) (d : TaskDependency) (a c : Access)
      → access d.type ≡ some c
      → are_ordered a c ≡ true
      → Gets {M = M} p i shared b t (own_clock a d.depend) (acquire_dependencies t (l ++ d ∷ r))
  unfolding acquire_dependencies
  acquires-Gets t [] r d a c e o =
      Gets-first p i shared b _ _ (begin-Gets t d.depend d.type a c e o) (acquires-Flows t r)
  acquires-Gets t (x ∷ l) r d a c e o =
      Gets-later p i shared b _ _ (begin-Flows t x.depend x.type) (acquires-Gets t l r d a c e o)

  -- Thread `t`, which completes a task, releases the task's dependences, and then thread `u`, which
  -- starts another task, acquires that one's. If both have a dependence on the same variable, of types
  -- that OpenMP orders, then everything returns, and each reading of a clock that is handed over, the
  -- process-local and the one on the critical path, is on `u` at least what it was on `t`, whatever
  -- other dependences the tasks have.
  pub dependences-Ran :
      (t u : ℕ) (l r l' r' : List TaskDependency) (d e : TaskDependency) (a c : Access)
      (w : World M)
      → access d.type ≡ some a
      → access e.type ≡ some c
      → are_ordered a c ≡ true
      → d.depend ≡ e.depend
      → w.running ≡ true
      → Ready p i shared b t w
      → Ready p i shared b u w
      → Has p i shared b t w
      → Ran
          (λ x w'. Has p i shared b u w')
          ((release_dependencies t (l ++ d ∷ r) >> acquire_dependencies u (l' ++ e ∷ r')) w)
  dependences-Ran t u l r l' r' d e a c w da ec o same on ht hu q =
      Ran-bind _ _ (release_dependencies t (l ++ d ∷ r))
        (λ x. acquire_dependencies u (l' ++ e ∷ r')) w (releases-Leaves t l r d a da w on ht q)
        λ x w₁ (k, held).
          Ran-imp _ _ (λ x w₂ m. m.1)
            (acquires-Gets u l' r' e a c ec o w₁ k.running (k.ready u hu)
              (subst (λ v. Covers p i shared b (w₁.syncs (own_clock a v))) same held))
