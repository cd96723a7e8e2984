-- ===== src/Requests/Post.antt =====
-- include/tracking.h: the data that a wrapper took from the pool and filled in becomes a request.
use otf_cpt.Common.{
  ℕ, ◌<◌, ◌≡◌, ◌≢◌, refl, sym, ap, ◌∙◌, List, [], ◌∷◌, Option, none, some, Bool, true, false, arith,
  set, ◌==◌, if◌then◌else◌, update,
}
use otf_cpt.Requests.State.{RequestData, init}
use otf_cpt.Requests.Factory.{
  Factory, get_data, new_handles, is_empty, pop_handle, enter_table, write_data, new_request_for,
  post_request,
}
use otf_cpt.Requests.Valid.{IsFactory}
use otf_cpt.Requests.Taken.{get_data-Taken, enter_table-Taken}
use otf_cpt.Requests.View.{request-eq, update_same, if_false}
use otf_cpt.Requests.Create.{
  Creates, entered, same-Live, from_same-Live, entered-IsFactory, entered-request,
}

abbrev with_requests : (ℕ → RequestData) → Factory → Factory
with_requests g s = record s { requests = g }

abbrev after : (ℕ → RequestData) → Option (ℕ × Factory) → Option (ℕ × Factory)
after g none = none
after g (some (h, s)) = some (h, with_requests g s)

module _ (null page : ℕ) where
  -- The table does not depend on the contents of the objects.
  pop_handle-with_requests :
      (i : ℕ) (g : ℕ → RequestData) (s : Factory)
      → pop_handle null page i (with_requests g s) ≡ after g (pop_handle null page i s)
  unfolding pop_handle
  pop_handle-with_requests i g s = go s.available
    where
      go :
          (available : List ℕ)
          → (elim available as (λ _. Option (ℕ × Factory)) [
            | [] ↦ none
            | h ∷ rest ↦
                some
                  (h, record s { requests = g; available = rest; table = set s.table h (some i) })
          ])
            ≡ after g (elim available [
              | [] ↦ none
              | h ∷ rest ↦ some (h, record s { available = rest; table = set s.table h (some i) })
            ])
      go [] = refl
      go (h ∷ rest) = refl

  enter_table-with_requests :
      (i : ℕ) (g : ℕ → RequestData) (s : Factory)
      → enter_table null page i (with_requests g s) ≡ after g (enter_table null page i s)
  unfolding enter_table new_handles
  enter_table-with_requests i g s = go (is_empty null page s.available)
    where
      go :
          (b : Bool)
          → pop_handle null page i
              (if b then new_handles null page (with_requests g s) else with_requests g s)
            ≡ after g (pop_handle null page i (if b then new_handles null page s else s))
      go true = pop_handle-with_requests i g (new_handles null page s)
      go false = pop_handle-with_requests i g s

-- The two writes to the data are one.
written :
    (null page req : ℕ) (persistent : Bool) (f : RequestData → RequestData) (i : ℕ) (s : Factory)
    → (write_data null page i (init req persistent) (write_data null page i f s)).requests
      ≡ update s.requests i (init req persistent (f (s.requests i)))
unfolding write_data
written null page req persistent f i s = λ j k. pointwise k j
  where
    pointwise :
        (k : ℕ)
        → update
            (update s.requests i (f (s.requests i)))
            i
            (init req persistent (update s.requests i (f (s.requests i)) i))
            k
          ≡ update s.requests i (init req persistent (f (s.requests i))) k
    pointwise k = rw (update_same s.requests i (f (s.requests i))) (ground arith)

module _ (null page : ℕ) where
  post_request-eq :
      (f : RequestData → RequestData) (req : ℕ) (persistent : Bool) (s s₁ : Factory) (i : ℕ)
      → req ≢ null
      → get_data null page s ≡ some (i, s₁)
      → post_request null page f req persistent s
        ≡ enter_table null page i
            (write_data null page i (init req persistent) (write_data null page i f s₁))
  unfolding post_request new_request_for
  post_request-eq f req persistent s s₁ i n e =
      ap
        (λ (r : Option (ℕ × Factory)). elim r as (λ _. Option (ℕ × Factory)) [
          | none ↦ none
          | some (i, s₁) ↦ new_request_for null page req i persistent (write_data null page i f s₁)
        ])
        e
      ∙ if_false (req == null) (some (null, _)) _ (ground (arith, n))

  -- A wrapper of an MPI function takes data from the pool, writes to it, and makes a request of it, with
  -- no call of another thread on the factory in between. It gets a handle that was free, and behind
  -- it the data with what it wrote, for its MPI request; the other requests stay as they are, and
  -- nothing is called back.
  pub post_request-Creates :
      (f : RequestData → RequestData) (req : ℕ) (persistent : Bool) (s : Factory)
      → 0 < page
      → req ≢ null
      → IsFactory s
      → Creates (λ d. init req persistent (f d)) s (post_request null page f req persistent s)
  unfolding init write_data
  post_request-Creates f req persistent s p n v =
      let t = get_data-Taken null page s p v in
      let u = enter_table-Taken null page t.object t.state t.valid in
      let d = init req persistent (f (t.state.requests t.object)) in
      let same : update u.state.requests t.object d
          ≡ (write_data null page t.object (init req persistent)
              (write_data null page t.object f t.state)).requests =
        ap (λ g. update g t.object d) u.same_requests
        ∙ sym (written null page req persistent f t.object t.state) in
      record {
        handle = u.handle;
        state = entered d s t u;
        object = t.object;
        returned =
            post_request-eq f req persistent s t.state t.object n t.returned
            ∙ (enter_table-with_requests null page t.object _ t.state
                ∙ (ap (after _) u.returned
                    ∙ ap (λ g. some (u.handle, with_requests g u.state)) (sym same)));
        valid = entered-IsFactory d s t u refl;
        was_free = λ k l. u.was_free k (same-Live d s t u k l);
        is_live = u.is_live;
        content =
            request-eq u.handle t.object (entered d s t u) u.entry
            ∙ ap some (
                update_same u.state.requests t.object d
                ∙ ap (λ g. init req persistent (f (g t.object))) t.same_requests);
        others = λ k l. ((u.stays k (same-Live d s t u k l)).0, entered-request d s t u k l);
        no_more = λ k l n. from_same-Live d s t u k (u.was_live k l n);
        same_log = u.same_log ∙ t.same_log;
      }
