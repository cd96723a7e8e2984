-- ===== src/Requests/Held.antt =====
-- What a handle leads to while the application makes other calls.
use otf_cpt.Common.{
  ℕ, ◌<◌, ◌≡◌, ◌≢◌, refl, sym, ap, ◌∙◌, subst, Option, none, some, Bool, arith, some-injective,
  ◌==◌,
}
use otf_cpt.Requests.State.{RequestData, init}
use otf_cpt.Requests.Factory.{Factory, post_request, get_handle}
use otf_cpt.Requests.Valid.{Live, IsFactory}
use otf_cpt.Requests.View.{request, request-eq, if_false}
use otf_cpt.Requests.Create.{Creates, new_request-Creates}
use otf_cpt.Requests.Post.{post_request-Creates}
use otf_cpt.Requests.Complete.{complete_request-Completes}
use otf_cpt.Requests.Session.{
  Step, created, posted, started, cancelled, completed, Spares, Steps, here, and_then, log_same,
  start_request-eq, cancel_request-eq, cancelled_same, cancel_at, same_state, Step-IsFactory,
}

-- The handle is live and leads to this MPI request.
pub record LeadsTo (h req : ℕ) (s : Factory) : Type 0 where
  pub is_live : Live h s
  pub content : (d : RequestData) × ((request h s ≡ some d) × (d.handle ≡ req))

module _ (null page : ℕ) where
  Step-LeadsTo :
      {s t : Factory} (h req : ℕ)
      → 0 < page
      → IsFactory s
      → (st : Step null page s t) → Spares h st
      → LeadsTo h req s
      → LeadsTo h req t
  Step-LeadsTo {s} h req p v (created req' persistent k n e) a w =
      let c = new_request-Creates null page req' persistent s p n v in
      let (l, q) = c.others h w.is_live in
      subst (LeadsTo h req) (same_state c.returned e)
        (record { is_live = l; content = (w.content.0, (q ∙ w.content.1.0, w.content.1.1)) })
  Step-LeadsTo {s} h req p v (posted f req' persistent k n e) a w =
      let c = post_request-Creates null page f req' persistent s p n v in
      let (l, q) = c.others h w.is_live in
      subst (LeadsTo h req) (same_state c.returned e)
        (record { is_live = l; content = (w.content.0, (q ∙ w.content.1.0, w.content.1.1)) })
  Step-LeadsTo {s} h req p v (started k r n l e) a w =
      let b = v.live k l in
      subst (LeadsTo h req) (same_state (start_request-eq null page k b.object s n b.entry) e)
        (record {
          is_live = w.is_live;
          content = (w.content.0, (log_same h s _ ∙ w.content.1.0, w.content.1.1));
        })
  Step-LeadsTo {s} h req p v (cancelled k r n l e) a w =
      let b = v.live k l in
      let b' = v.live h w.is_live in
      let same : w.content.0 ≡ s.requests b'.object =
        some-injective _ _ (sym w.content.1.0 ∙ request-eq h b'.object s b'.entry) in
      subst (LeadsTo h req) (same_state (cancel_request-eq null page k b.object s n b.entry) e)
        (record {
          is_live = w.is_live;
          content = (
            (cancel_at b.object s).requests b'.object,
            (
              request-eq h b'.object (cancel_at b.object s) b'.entry,
              (cancelled_same b.object b'.object s).1
                  ∙ (ap (λ d. d.handle) (sym same) ∙ w.content.1.1),
            ),
          );
        })
  Step-LeadsTo {s} h req p v (completed k status r n l e) a w =
      let b = v.live k l in
      let c =
        complete_request-Completes null page k status s v l n _ (request-eq k b.object s b.entry) in
      let (m, q) = c.others h w.is_live (λ x. a (sym x)) in
      subst (LeadsTo h req) (same_state c.returned e)
        (record { is_live = m; content = (w.content.0, (q ∙ w.content.1.0, w.content.1.1)) })

  Steps-LeadsTo :
      (h req : ℕ) {s t : Factory}
      → 0 < page
      → IsFactory s
      → LeadsTo h req s
      → Steps null page h s t
      → IsFactory t × LeadsTo h req t
  Steps-LeadsTo h req p v w here = (v, w)
  Steps-LeadsTo h req p v w (and_then r st a) =
      let (v', w') = Steps-LeadsTo h req p v w r in
      (Step-IsFactory null page p v' st, Step-LeadsTo h req p v' st a w')

  LeadsTo-get_handle :
      (h req : ℕ) (s : Factory)
      → h ≢ null
      → IsFactory s
      → LeadsTo h req s
      → get_handle null page h s ≡ some req
  unfolding get_handle
  LeadsTo-get_handle h req s n v w =
      let b = v.live h w.is_live in
      let same : w.content.0 ≡ s.requests b.object =
        some-injective _ _ (sym w.content.1.0 ∙ request-eq h b.object s b.entry) in
      if_false (h == null) (some null) _ (ground (arith, n))
      ∙ ap
          (λ (r : Option ℕ). elim r as (λ _. Option ℕ) [
            | none ↦ none
            | some i ↦ some (s.requests i).handle
          ])
          b.entry
      ∙ ap some (ap (λ d. d.handle) (sym same) ∙ w.content.1.1)

  -- A request that was made for `req` leads to it through any steps that do not complete it.
  Creates-Steps :
      (req : ℕ) (made : RequestData → RequestData) (s t u : Factory) (h : ℕ)
      {r : Option (ℕ × Factory)}
      → ((d : RequestData) → (made d).handle ≡ req)
      → 0 < page
      → h ≢ null
      → Creates made s r
      → r ≡ some (h, t)
      → Steps null page h t u
      → get_handle null page h u ≡ some req
  Creates-Steps req made s t u h same p m c e steps =
      let q : (c.handle, c.state) ≡ (h, t) = some-injective _ _ (sym c.returned ∙ e) in
      let w : LeadsTo c.handle req c.state = record {
        is_live = c.is_live;
        content = (_, (c.content, same _));
      } in
      let (v', w') =
        Steps-LeadsTo h req p (subst IsFactory (ap (λ x. x.1) q) c.valid)
          (subst (λ (x : ℕ × Factory). LeadsTo x.0 req x.1) q w) steps in
      LeadsTo-get_handle h req u m v' w'

  -- The handle that a wrapper of an MPI function got for the data that it took and filled in leads to its
  -- MPI request, as long as that is not completed, whatever else is created, started, cancelled or
  -- completed meanwhile, by wrappers that take data and make a request of it in one step.
  pub post_request-Steps :
      (f : RequestData → RequestData) (req : ℕ) (persistent : Bool) (s t u : Factory) (h : ℕ)
      → 0 < page
      → req ≢ null
      → h ≢ null
      → IsFactory s
      → post_request null page f req persistent s ≡ some (h, t)
      → Steps null page h t u
      → get_handle null page h u ≡ some req
  unfolding init
  post_request-Steps f req persistent s t u h p n m v e steps =
      Creates-Steps req (λ d. init req persistent (f d)) s t u h (λ d. refl) p m
        (post_request-Creates null page f req persistent s p n v) e steps
