-- ===== src/Requests/Session.antt =====
-- The calls of an application on its requests, and what a handle leads to in the meantime.
use otf_cpt.Common.{
  ℕ, ◌<◌, ◌≡◌, ◌≢◌, refl, sym, ap, ◌∙◌, subst, List, ◌++◌, Option, none, some, Bool, true, arith,
  some-injective, ◌==◌, update, ℕ_discrete,
}
use otf_cpt.Requests.State.{RequestData, Event, start_calls, cancel_calls}
use otf_cpt.Requests.Factory.{
  Factory, table_at, new_request, post_request, complete_request, start_request, cancel_request,
}
use otf_cpt.Requests.Valid.{Live, IsFactory}
use otf_cpt.Requests.View.{request, request-eq, if_false}
use otf_cpt.Requests.Create.{new_request-Creates}
use otf_cpt.Requests.Post.{post_request-Creates}
use otf_cpt.Requests.Complete.{complete_request-Completes}

-- A call of the tool. The application completes, starts and cancels what it holds.
pub data Step (null page : ℕ) (s : Factory) : Factory → Type 0 where
  created :
      {t : Factory} (req : ℕ) (persistent : Bool) (k : ℕ)
      → req ≢ null
      → new_request null page req persistent s ≡ some (k, t)
      → Step null page s t
  posted :
      {t : Factory} (f : RequestData → RequestData) (req : ℕ) (persistent : Bool) (k : ℕ)
      → req ≢ null
      → post_request null page f req persistent s ≡ some (k, t)
      → Step null page s t
  started :
      {t : Factory} (k r : ℕ)
      → k ≢ null
      → Live k s
      → start_request null page k s ≡ some (r, t)
      → Step null page s t
  cancelled :
      {t : Factory} (k r : ℕ)
      → k ≢ null
      → Live k s
      → cancel_request null page k s ≡ some (r, t)
      → Step null page s t
  completed :
      {t : Factory} (k status r : ℕ)
      → k ≢ null
      → Live k s
      → complete_request null page k status s ≡ some (r, t)
      → Step null page s t

-- Whether the step completes the request behind `h`.
abbrev pub Spares : {null page : ℕ} {s t : Factory} (h : ℕ) → Step null page s t → Type 0
Spares h (created req persistent k n e) = Unit
Spares h (posted f req persistent k n e) = Unit
Spares h (started k r n l e) = Unit
Spares h (cancelled k r n l e) = Unit
Spares h (completed k status r n l e) = k ≢ h

pub data Steps (null page h : ℕ) (s : Factory) : Factory → Type 0 where
  here : Steps null page h s s
  and_then :
      {t u : Factory}
      → Steps null page h s t
      → (st : Step null page t u) → Spares h st
      → Steps null page h s u

pub second : {h t : ℕ × Factory} → some h ≡ some t → h.1 ≡ t.1
second e = ap (λ p. p.1) (some-injective _ _ e)

pub log_same :
    (h : ℕ) (s : Factory) (log : List Event) → request h (record s { log = log }) ≡ request h s
unfolding request
log_same h s log = refl

-- A state that the step returned in two ways is one state.
pub same_state :
    {r : Option (ℕ × Factory)} {k k' : ℕ} {t t' : Factory}
    → r ≡ some (k, t)
    → r ≡ some (k', t')
    → t ≡ t'
same_state p q = second (sym p ∙ q)

abbrev pub cancel_at : ℕ → Factory → Factory
cancel_at i s = record s {
  requests = update s.requests i (record (s.requests i) { cancelled = true });
  log = cancel_calls i (s.requests i) ++ s.log;
}

-- What a step on the data of a request leaves: its state, and its MPI request.
pub cancelled_same :
    (i j : ℕ) (s : Factory)
    → (((cancel_at i s).requests j).freed ≡ (s.requests j).freed)
      × (((cancel_at i s).requests j).handle ≡ (s.requests j).handle)
cancelled_same i j s = elim (ℕ_discrete i j) [
  | yes e ↦ (ground (arith, e), ground (arith, e))
  | no n ↦ (ground (arith, n), ground (arith, n))
]

module _ (null page : ℕ) where
  pub start_request-eq :
      (k i : ℕ) (s : Factory)
      → k ≢ null
      → table_at s.table k ≡ some i
      → start_request null page k s
        ≡ some ((s.requests i).handle, record s { log = start_calls i (s.requests i) ++ s.log })
  unfolding start_request
  start_request-eq k i s n e =
      if_false (k == null) (some (null, s)) _ (ground (arith, n))
      ∙ ap
          (λ (r : Option ℕ). elim r as (λ _. Option (ℕ × Factory)) [
            | none ↦ none
            | some i ↦
                some
                  ((s.requests i).handle, record s { log = start_calls i (s.requests i) ++ s.log })
          ])
          e

  pub cancel_request-eq :
      (k i : ℕ) (s : Factory)
      → k ≢ null
      → table_at s.table k ≡ some i
      → cancel_request null page k s ≡ some (k, cancel_at i s)
  unfolding cancel_request
  cancel_request-eq k i s n e =
      if_false (k == null) (some (null, s)) _ (ground (arith, n))
      ∙ ap
          (λ (r : Option ℕ). elim r as (λ _. Option (ℕ × Factory)) [
            | none ↦ none
            | some i ↦ some (k, cancel_at i s)
          ])
          e

  log-IsFactory :
      (s : Factory) (log : List Event) → IsFactory s → IsFactory (record s { log = log })
  log-IsFactory s log v = record {
    pool_distinct = v.pool_distinct;
    pool_below = v.pool_below;
    available_distinct = v.available_distinct;
    available_below = v.available_below;
    live = λ k m.
        let b = v.live k m in
        record {
          object = b.object;
          entry = b.entry;
          is_created = b.is_created;
          not_pooled = b.not_pooled;
          not_freed = b.not_freed;
        };
    apart = v.apart;
  }

  cancel-IsFactory : (i : ℕ) (s : Factory) → IsFactory s → IsFactory (cancel_at i s)
  cancel-IsFactory i s v = record {
    pool_distinct = v.pool_distinct;
    pool_below = v.pool_below;
    available_distinct = v.available_distinct;
    available_below = v.available_below;
    live = λ k m.
        let b = v.live k m in
        record {
          object = b.object;
          entry = b.entry;
          is_created = b.is_created;
          not_pooled = b.not_pooled;
          not_freed = (cancelled_same i b.object s).0 ∙ b.not_freed;
        };
    apart = v.apart;
  }

  pub Step-IsFactory : {s t : Factory} → 0 < page → IsFactory s → Step null page s t → IsFactory t
  Step-IsFactory {s} p v (created req persistent k n e) =
      let c = new_request-Creates null page req persistent s p n v in
      subst IsFactory (same_state c.returned e) c.valid
  Step-IsFactory {s} p v (posted f req persistent k n e) =
      let c = post_request-Creates null page f req persistent s p n v in
      subst IsFactory (same_state c.returned e) c.valid
  Step-IsFactory {s} p v (started k r n l e) =
      let b = v.live k l in
      subst IsFactory (same_state (start_request-eq k b.object s n b.entry) e) (log-IsFactory s _ v)
  Step-IsFactory {s} p v (cancelled k r n l e) =
      let b = v.live k l in
      subst IsFactory (same_state (cancel_request-eq k b.object s n b.entry) e)
        (cancel-IsFactory b.object s v)
  Step-IsFactory {s} p v (completed k status r n l e) =
      let b = v.live k l in
      let c =
        complete_request-Completes null page k status s v l n _ (request-eq k b.object s b.entry) in
      subst IsFactory (same_state c.returned e) c.valid
