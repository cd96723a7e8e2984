-- ===== src/Requests/Create.antt =====
-- include/tracking.h: newRequest returns a handle that leads to the data of its own request.
use otf_cpt.Common.{
  ℕ, ◌<◌, ◌≡◌, ◌≢◌, refl, sym, ap, ◌∙◌, subst, Option, none, some, Bool, false, arith, length, ◌==◌,
  update, ℕ_discrete,
}
use otf_cpt.Requests.State.{RequestData, init}
use otf_cpt.Requests.Factory.{Factory, table_at, get_data, enter_table, new_request}
use otf_cpt.Requests.Distinct.{Absent, Distinct, Below}
use otf_cpt.Requests.Valid.{Live, Behind, IsFactory}
use otf_cpt.Requests.Taken.{TakenData, TakenHandle, get_data-Taken, enter_table-Taken}
use otf_cpt.Requests.View.{request, request-eq, update_same, update_other, if_false}

-- The call made a request, and behind its handle stands `made` of what an object held before.
pub record Creates (made : RequestData → RequestData) (s : Factory) (r : Option (ℕ × Factory))
    : Type 0 where
  pub handle : ℕ
  pub state : Factory
  pub object : ℕ
  pub returned : r ≡ some (handle, state)
  pub valid : IsFactory state
  pub was_free : (k : ℕ) → Live k s → k ≢ handle
  pub is_live : Live handle state
  pub content : request handle state ≡ some (made (s.requests object))
  pub others : (k : ℕ) → Live k s → Live k state × (request k state ≡ request k s)
  pub no_more : (k : ℕ) → Live k state → k ≢ handle → Live k s
  pub same_log : state.log ≡ s.log

module _ (null page : ℕ) where
  new_request-eq :
      (req : ℕ) (persistent : Bool) (s s₁ s₂ : Factory) (i h : ℕ)
      → req ≢ null
      → get_data null page s ≡ some (i, s₁)
      → enter_table null page i s₁ ≡ some (h, s₂)
      → new_request null page req persistent s
        ≡ some
            (h, record s₂ { requests = update s₂.requests i (init req persistent (s₂.requests i)) })
  unfolding new_request
  new_request-eq req persistent s s₁ s₂ i h n p q =
      if_false (req == null) (some (null, s)) _ (ground (arith, n))
      ∙ (ap
            (λ (r : Option (ℕ × Factory)). elim r [
              | none ↦ none
              | some (i, s₁) ↦ elim (enter_table null page i s₁) [
                | none ↦ none
                | some (h, s₂) ↦ some (
                  h,
                  record s₂ {
                    requests = update s₂.requests i (init req persistent (s₂.requests i));
                  },
                )
              ]
            ])
            p
          ∙ ap
              (λ (r : Option (ℕ × Factory)). elim r [
                | none ↦ none
                | some (h, s₂) ↦ some (
                  h,
                  record s₂ {
                    requests = update s₂.requests i (init req persistent (s₂.requests i));
                  },
                )
              ])
              q)

-- After the object and the handle were taken, the data is initialised.
module _ (d : RequestData) (s : Factory) {r q : Option (ℕ × Factory)} (t : TakenData s r)
    (u : TakenHandle t.object t.state q) where
  abbrev pub entered : Factory
  entered = record u.state { requests = update u.state.requests t.object d }

  entered-Behind : d.freed ≡ false → (k : ℕ) → Live k entered → Behind entered k
  entered-Behind f k l = elim (ℕ_discrete k u.handle) [
    | yes e ↦ record {
      object = t.object;
      entry = ap (table_at u.state.table) e ∙ u.entry;
      is_created = omega (arith, u.same_created, t.is_created);
      not_pooled = subst (Absent t.object) (sym u.same_pool) t.not_pooled;
      not_freed = ap (λ d. d.freed) (update_same u.state.requests t.object d) ∙ f;
    }
    | no n ↦
        let l' = u.was_live k l n in
        let b = t.valid.live k l' in
        record {
          object = b.object;
          entry = (u.stays k l').1 ∙ b.entry;
          is_created = omega (arith, u.same_created, b.is_created);
          not_pooled = subst (Absent b.object) (sym u.same_pool) b.not_pooled;
          not_freed =
              ap (λ d. d.freed)
                (update_other u.state.requests t.object b.object d
                  (λ e. t.fresh k l' (b.entry ∙ ap some (sym e))))
              ∙ (ap (λ f. (f b.object).freed) u.same_requests ∙ b.not_freed);
        }
  ]

  -- No other live handle leads to the object.
  only : (k : ℕ) → Live k entered → k ≢ u.handle → table_at u.state.table k ≢ some t.object
  only k l n e = let l' = u.was_live k l n in t.fresh k l' (sym (u.stays k l').1 ∙ e)

  entered-apart :
      (h k i : ℕ)
      → Live h entered
      → Live k entered
      → table_at u.state.table h ≡ some i
      → table_at u.state.table k ≡ some i
      → h ≡ k
  entered-apart h k i l m p q = elim (ℕ_discrete h u.handle) [
    | yes e ↦ elim (ℕ_discrete k u.handle) [
      | yes e' ↦ e ∙ sym e'
      | no n ↦ absurd (only k m n (q ∙ (sym p ∙ (ap (table_at u.state.table) e ∙ u.entry))))
    ]
    | no n ↦ elim (ℕ_discrete k u.handle) [
      | yes e ↦ absurd (only h l n (p ∙ (sym q ∙ (ap (table_at u.state.table) e ∙ u.entry))))
      | no n' ↦
          let l' = u.was_live h l n in
          let m' = u.was_live k m n' in
          t.valid.apart h k i l' m' (sym (u.stays h l').1 ∙ p) (sym (u.stays k m').1 ∙ q)
    ]
  ]

  pub entered-IsFactory : d.freed ≡ false → IsFactory entered
  entered-IsFactory f = record {
    pool_distinct = subst Distinct (sym u.same_pool) t.valid.pool_distinct;
    pool_below =
        subst (λ n. Below n u.state.pool) (sym u.same_created)
          (subst (Below t.state.created) (sym u.same_pool) t.valid.pool_below);
    available_distinct = u.available_distinct;
    available_below = u.available_below;
    live = entered-Behind f;
    apart = entered-apart;
  }

  pub same-Live : (k : ℕ) → Live k s → Live k t.state
  same-Live k l =
      subst (λ table. k < length table × Absent k t.state.available) (sym t.same_table)
        (l.0, subst (Absent k) (sym t.same_available) l.1)

  pub from_same-Live : (k : ℕ) → Live k t.state → Live k s
  from_same-Live k l =
      subst (λ table. k < length table × Absent k s.available) t.same_table
        (l.0, subst (Absent k) t.same_available l.1)

  pub entered-request : (k : ℕ) → Live k s → request k entered ≡ request k s
  entered-request k l =
      let l' = same-Live k l in
      let b = t.valid.live k l' in
      request-eq k b.object entered ((u.stays k l').1 ∙ b.entry)
      ∙ (ap some (
            update_other u.state.requests t.object b.object d
              (λ e. t.fresh k l' (b.entry ∙ ap some (sym e)))
            ∙ (ap (λ f. f b.object) u.same_requests ∙ ap (λ f. f b.object) t.same_requests))
          ∙ sym (
              request-eq k b.object s
                (ap (λ table. table_at table k) (sym t.same_table) ∙ b.entry)))

module _ (null page : ℕ) where
  -- newRequest returns a handle that was free, and behind it the data of the given request alone;
  -- the other requests stay as they are.
  pub new_request-Creates :
      (req : ℕ) (persistent : Bool) (s : Factory)
      → 0 < page
      → req ≢ null
      → IsFactory s
      → Creates (init req persistent) s (new_request null page req persistent s)
  unfolding init
  new_request-Creates req persistent s p n v =
      let t = get_data-Taken null page s p v in
      let u = enter_table-Taken null page t.object t.state t.valid in
      let d = init req persistent (u.state.requests t.object) in
      record {
        handle = u.handle;
        state = entered d s t u;
        object = t.object;
        returned =
            new_request-eq null page req persistent s t.state u.state t.object u.handle n t.returned
              u.returned;
        valid = entered-IsFactory d s t u refl;
        was_free = λ k l. u.was_free k (same-Live d s t u k l);
        is_live = u.is_live;
        content =
            request-eq u.handle t.object (entered d s t u) u.entry
            ∙ ap some (
                update_same u.state.requests t.object d
                ∙ ap (λ f. init req persistent (f t.object)) (u.same_requests ∙ t.same_requests));
        others = λ k l. ((u.stays k (same-Live d s t u k l)).0, entered-request d s t u k l);
        no_more = λ k l n. from_same-Live d s t u k (u.was_live k l n);
        same_log = u.same_log ∙ t.same_log;
      }
