-- ===== src/Openmp/Calls/Finish.antt =====
-- `finishMeasurement` of src/critical-core.cpp, in the states that the OpenMP callbacks lead to.
use otf_cpt.Common.{
  ℕ, suc, ◌+◌, ◌≤◌, ◌≡◌, refl, sym, ap, subst, ◌∙◌, Bool, true, false, not, Option, none, some,
  some-injective, List, [], ◌∷◌, length, Bool-cases, inl, inr, arith,
}
use otf_cpt.Common.Int.{ℤ, pos, ◌+ℤ◌, ◌*ℤ◌, ◌≤ℤ◌, ltb_ℤ, +ℤ_parts, *ℤ_mono, product_parts}
use otf_cpt.Clock.Metric.{Metric}
use otf_cpt.Clock.State.{state_init, same_state}
use otf_cpt.Tool.World.{World, Summary}
use otf_cpt.Tool.Action.{Act, ◌>>=◌, when, current, set, get_time}
use otf_cpt.Tool.Measure.{
  stop_measurement, Totals, no_totals, add_totals, thread_times, gather_thread, gather, gather_all,
  add_all_counts, finish_measurement,
}
use otf_cpt.Tool.Pop.Reduction.{IsBalanced}
use otf_cpt.Openmp.Returns.Primitives.{set-Quiet}
use otf_cpt.Openmp.Returns.Good.{Good, Ends, Quiet-first}
use otf_cpt.Openmp.Returns.Measure.{same-Good, gather_all-Ends}
use otf_cpt.Openmp.Objects.{Sizes}
use otf_cpt.Openmp.Calls.{Reach}
use otf_cpt.Openmp.Calls.Return.{Reach-IsValid}
use otf_cpt.Openmp.Returns.Valid.{Begun}
use otf_cpt.Openmp.Returns.Ran.{Ran-when, Ran, Ran-some, Ran-bind, Ran-deref}

-- Totals over `n` threads
abbrev Bounded : ℕ → Totals → Type 0
Bounded n s = (pos 0 ≤ℤ s.useful_max) × (s.useful_sum ≤ℤ s.useful_max *ℤ pos n)

one_more :
    (sum uc m m' : ℤ) (n : ℕ)
    → sum ≤ℤ m *ℤ pos n
    → m ≤ℤ m'
    → uc ≤ℤ m'
    → sum +ℤ uc ≤ℤ m' *ℤ pos (suc n)
one_more sum uc m m' n h le uc_le = simp product_parts (
    omega (
      arith,
      +ℤ_parts sum uc,
      simp product_parts at h,
      simp product_parts at (*ℤ_mono m m' (pos n) le (omega arith)),
    ))

ltb_ℤ-true : (a b : ℤ) → ltb_ℤ a b ≡ true → a ≤ℤ b
ltb_ℤ-true a b e = ground arith

ltb_ℤ-false : (a b : ℤ) → ltb_ℤ a b ≡ false → b ≤ℤ a
ltb_ℤ-false a b e = ground arith

add_totals-Bounded :
    (n : ℕ) (uc oot : ℤ) (s : Totals) → Bounded n s → Bounded (suc n) (add_totals uc oot s)
unfolding add_totals
add_totals-Bounded n uc oot s h = elim (Bool-cases (ltb_ℤ s.useful_max uc)) [
  | inl e ↦
      let le = ltb_ℤ-true s.useful_max uc e in
      rw e (omega (arith, le, h.0), one_more s.useful_sum uc s.useful_max uc n h.1 le (omega arith))
  | inr e ↦ rw e (
    h.0,
    one_more s.useful_sum uc s.useful_max s.useful_max n h.1 (omega arith)
        (ltb_ℤ-false s.useful_max uc e),
  )
]

none_Bounded : Bounded 0 no_totals
unfolding ◌*ℤ◌
none_Bounded = omega arith

module _ {M : Type 0} where
  bind_inv :
      {A B : Type 0} (m : Act M A) (f : A → Act M B) (w : World M) {x : B × World M}
      → (m >>= f) w ≡ some x
      → (a : A) × (w' : World M) × (m w ≡ some (a, w')) × (f a w' ≡ some x)
  bind_inv {A} {B} m f w {x} = by_result (m w)
    where
      by_result :
          (r : Option (A × World M))
          → elim r [ none ↦ none | some (a, w') ↦ f a w' ] ≡ some x
          → (a : A) × (w' : World M) × (r ≡ some (a, w')) × (f a w' ≡ some x)
      by_result none e = cc
      by_result (some (a, w')) e = (a, w', refl, e)

module _ {M : Type 0} ⦃metric : Metric M⦄ where
  gather_thread-Bounded :
      (t n : ℕ) (s s' : Totals) (w w' : World M)
      → Bounded n s
      → gather_thread t s w ≡ some (s', w')
      → Bounded (suc n) s'
  unfolding gather_thread
  gather_thread-Bounded t n s s' w w' h e =
      let (state, w₁, _, e₁) = bind_inv (current t) _ w e in
      let (_, w₂, _, e₂) =
        bind_inv (when (not (same_state state state_init)) (set t w₁.end_programm_time state_init))
          _ w₁ e₁ in
      let (times, w₃, _, e₃) = bind_inv (thread_times t) _ w₂ e₂ in
      subst (Bounded (suc n)) (ap (λ (q : Totals × World M). q.0) (some-injective _ _ e₃))
        (add_totals-Bounded n times.0 times.1 s h)

  gather-Bounded :
      (l : List ℕ) (n : ℕ) (s s' : Totals) (w w' : World M)
      → Bounded n s
      → gather l s w ≡ some (s', w')
      → Bounded (length l + n) s'
  unfolding gather
  gather-Bounded [] n s s' w w' h e =
      subst (λ k. Bounded k s') (omega arith)
        (subst (Bounded n) (ap (λ (q : Totals × World M). q.0) (some-injective _ _ e)) h)
  gather-Bounded (t ∷ l) n s s' w w' h e =
      let (s₁, w₁, e₁, rest) = bind_inv (gather_thread t s) _ w e in
      subst (λ k. Bounded k s') (omega arith)
        (gather-Bounded l (suc n) s₁ s' w₁ w' (gather_thread-Bounded t n s s₁ w w₁ h e₁) rest)

  gather_all-Bounded :
      (t u : ℕ) (l : List ℕ) (w w' : World M) {r : ℕ × Totals}
      → gather_all t (u ∷ l) w ≡ some (r, w')
      → (1 ≤ r.0) × Bounded r.0 r.1
  unfolding gather_all
  gather_all-Bounded t u l w w' e =
      let (s, w₁, e₁, e₂) = bind_inv (gather (u ∷ l) no_totals) _ w e in
      let (_, w₂, _, e₃) = bind_inv (add_all_counts w₁.thread_counts) _ w₁ e₂ in
      let bounded = gather-Bounded (u ∷ l) 0 no_totals s w w₁ none_Bounded e₁ in
      subst (λ r. (1 ≤ r.0) × Bounded r.0 r.1)
        (ap (λ (q : (ℕ × Totals) × World M). q.0) (some-injective _ _ e₃))
        (omega arith, subst (λ k. Bounded k s) (omega arith) bounded)

  -- What `finishMeasurement` leaves for process 0 to reduce.
  pub record Gathered (r : Option (Unit {0} × World M)) : Type 0 where
    pub after : World M
    pub returned : r ≡ some (tt, after)
    pub values : Summary
    pub stored : after.summary ≡ some values
    pub balanced : IsBalanced values

  abbrev Summarized : Unit {0} → World M → Type 0
  Summarized _ w = (s : Summary) × (w.summary ≡ some s) × IsBalanced s

  stopped :
      {t : ℕ} (time : ℤ) (w : World M)
      → Good t w
      → Ran (λ a w'. Good t w' × (w'.thread_clocks ≡ w.thread_clocks)) (stop_measurement time w)
  unfolding stop_measurement
  stopped {t} time w g =
      Ran-when (λ a w'. Good t w' × (w'.thread_clocks ≡ w.thread_clocks)) w.running _ w (g, refl)
        (Ran-some _ tt _ (same-Good refl refl refl refl refl refl g, refl))

  listed-Ran :
      (t u : ℕ) (l listed : List ℕ) (w : World M)
      → listed ≡ u ∷ l
      → Ends t (gather_all t listed w)
      → Ran (λ r w'. Good t w' × (1 ≤ r.0) × Bounded r.0 r.1) (gather_all t listed w)
  listed-Ran t u l listed w same r =
      let returned = ap (λ l. gather_all t l w) (sym same) ∙ r.returned in
      let (some_thread, bounded) = gather_all-Bounded t u l w r.after returned in
      record {
        value = r.value;
        after = r.after;
        returned = r.returned;
        post = (r.post, some_thread, bounded);
      }

  finish_measurement-Ran :
      {t : ℕ} (runtime : ℤ) (w : World M) (u : ℕ) (l : List ℕ)
      → Good t w
      → w.finished ≡ false
      → w.thread_clocks ≡ u ∷ l
      → Ran Summarized (finish_measurement runtime t w)
  unfolding finish_measurement get_time
  finish_measurement-Ran {t} runtime w u l g open_ listed = rw open_ (
      Ran-bind (λ a w'. Good t w' × (w'.thread_clocks ≡ w.thread_clocks)) _
        (stop_measurement (w.times w.calls)) _ _
        (stopped _ _ (same-Good refl refl refl refl refl refl g))
        λ a w₁ g₁.
          Quiet-first _ (set t w₁.end_programm_time state_init) _ w₁ (set-Quiet t _) g₁.0
            λ w₂ k₂ g₂.
              Ran-bind _ _ (gather_all t w₂.thread_clocks) _ w₂
                (listed-Ran t u l w₂.thread_clocks w₂ (k₂.lists.0 ∙ g₁.1 ∙ listed)
                  (gather_all-Ends w₂.thread_clocks w₂ g₂.valid.listed.clocks g₂))
                λ totals w₃ h. Ran-deref _ (w₃.threads t) h.0.begun.clock.0 _ w₃ h.0.begun.clock.1 (
                  Ran-some Summarized tt _
                    (_, refl, record { threads = h.1; useful_max = h.2.0; useful_sum = h.2.1 })))

module _ {M : Type 0} ⦃metric : Metric M⦄ (sizes : Sizes) (runtime : ℤ) where
  -- In every state that calls of the OpenMP runtime lead to, on a thread that has begun, with a thread
  -- on the list, the first call of `finishMeasurement` returns and leaves the values of the process. In
  -- them the sum of the useful times is at most the number of threads, which is not 0, times their
  -- maximum, which is not negative.
  pub Reach-finish_measurement :
      {stopped dump : Bool} {times : ℕ → ℤ} {w : World M} (t u : ℕ) (l : List ℕ)
      → Reach sizes runtime stopped dump times w
      → Begun t w
      → w.finished ≡ false
      → w.thread_clocks ≡ u ∷ l
      → Gathered (finish_measurement runtime t w)
  Reach-finish_measurement {w = w} t u l r b unfinished listed =
      let good : Good t w = record { valid = Reach-IsValid sizes runtime r; begun = b } in
      let done = finish_measurement-Ran runtime w u l good unfinished listed in
      record {
        after = done.after;
        returned = done.returned;
        values = done.post.0;
        stored = done.post.1;
        balanced = done.post.2;
      }
