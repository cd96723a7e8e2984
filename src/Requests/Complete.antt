-- ===== src/Requests/Complete.antt =====
-- include/tracking.h: completeRequest calls the completion callback once, and gives up the handle and
-- the data of a request that is not persistent.
use otf_cpt.Common.{
  ℕ, ◌≡◌, ◌≢◌, refl, sym, ap, ◌∙◌, subst, List, ◌++◌, Option, none, some, true, false, arith,
  some-injective, if◌then◌else◌, ◌==◌, Bool-cases, inl, inr,
}
use otf_cpt.Requests.State.{RequestData, Event, fini, complete_calls}
use otf_cpt.Requests.Factory.{Factory, complete_request, finish, return_data}
use otf_cpt.Requests.Valid.{Live, Behind, IsFactory}
use otf_cpt.Requests.View.{request, request-eq, update_other, if_false}

pub record Completes (null h status : ℕ) (d : RequestData) (s : Factory) (r : Option (ℕ × Factory))
    : Type 0 where
  pub state : Factory
  pub returned : r ≡ some (if d.persistent then h else null, state)
  pub valid : IsFactory state
  pub called : (i : ℕ) × (state.log ≡ complete_calls i status d ++ s.log)
  pub others : (k : ℕ) → Live k s → k ≢ h → Live k state × (request k state ≡ request k s)
  pub no_more : (k : ℕ) → Live k state → Live k s
  pub gone : d.persistent ≡ false → ¬ Live h state
  pub kept : d.persistent ≡ true → Live h state × (request h state ≡ some d)

module _ (null page : ℕ) (h status : ℕ) (s : Factory) (v : IsFactory s) (l : Live h s) where
  abbrev behind : Behind s h
  behind = v.live h l

  abbrev object : ℕ
  object = behind.object

  complete_request-eq :
      h ≢ null
      → complete_request null page h status s ≡ (
          if (s.requests object).persistent
          then some
              (h, record s { log = complete_calls object status (s.requests object) ++ s.log })
          else some (null, finish null page h object status s))
  unfolding complete_request
  complete_request-eq n =
      if_false (h == null) (some (null, s)) _ (ground (arith, n))
      ∙ ap
          (λ (r : Option ℕ). elim r [
            | none ↦ none
            | some i ↦
                if (s.requests i).persistent
                then some (h, record s { log = complete_calls i status (s.requests i) ++ s.log })
                else some (null, finish null page h i status s)
          ])
          behind.entry

  -- Another live handle leads to another object.
  other : (k : ℕ) → (m : Live k s) → k ≢ h → object ≢ (v.live k m).object
  other k m n e = n (v.apart k h object m l ((v.live k m).entry ∙ ap some (sym e)) behind.entry)

  finish-Behind :
      (k : ℕ)
      → Live k (finish null page h object status s)
      → Behind (finish null page h object status s) k
  unfolding finish return_data
  finish-Behind k m =
      let b = v.live k (m.0, m.1.1) in
      record {
        object = b.object;
        entry = b.entry;
        is_created = b.is_created;
        not_pooled = (λ e. other k (m.0, m.1.1) m.1.0 (sym e), b.not_pooled);
        not_freed =
            ap (λ d. d.freed)
              (update_other s.requests object b.object (fini null (s.requests object))
                (other k (m.0, m.1.1) m.1.0))
            ∙ b.not_freed;
      }

  finish-IsFactory : IsFactory (finish null page h object status s)
  unfolding finish return_data
  finish-IsFactory = record {
    pool_distinct = (behind.not_pooled, v.pool_distinct);
    pool_below = (behind.is_created, v.pool_below);
    available_distinct = (l.1, v.available_distinct);
    available_below = (l.0, v.available_below);
    live = finish-Behind;
    apart = λ j k i m n. v.apart j k i (m.0, m.1.1) (n.0, n.1.1);
  }

  finish-request :
      (k : ℕ) → Live k s → k ≢ h → request k (finish null page h object status s) ≡ request k s
  unfolding finish return_data
  finish-request k m n =
      let b = v.live k m in
      request-eq k b.object (finish null page h object status s) b.entry
      ∙ (ap some
            (update_other s.requests object b.object (fini null (s.requests object)) (other k m n))
          ∙ sym (request-eq k b.object s b.entry))

  finish-Completes :
      h ≢ null
      → (s.requests object).persistent ≡ false
      → Completes null h status (s.requests object) s (complete_request null page h status s)
  unfolding finish return_data
  finish-Completes n f = record {
    state = finish null page h object status s;
    returned = complete_request-eq n ∙ rw f;
    valid = finish-IsFactory;
    called = (object, refl);
    others = λ k m n. ((m.0, (n, m.1)), finish-request k m n);
    no_more = λ k m. (m.0, m.1.1);
    gone = λ _ m. m.1.0 refl;
    kept = λ e. ground (arith, e, f);
  }

  -- The log does not matter.
  request_same : (k : ℕ) (log : List Event) → request k (record s { log = log }) ≡ request k s
  unfolding request
  request_same k log = refl

  keep-Completes :
      h ≢ null
      → (s.requests object).persistent ≡ true
      → Completes null h status (s.requests object) s (complete_request null page h status s)
  keep-Completes n f = record {
    state = record s { log = complete_calls object status (s.requests object) ++ s.log };
    returned = complete_request-eq n ∙ rw f;
    valid = record {
      pool_distinct = v.pool_distinct;
      pool_below = v.pool_below;
      available_distinct = v.available_distinct;
      available_below = v.available_below;
      live = λ k m.
          let b = v.live k m in
          record {
            object = b.object;
            entry = b.entry;
            is_created = b.is_created;
            not_pooled = b.not_pooled;
            not_freed = b.not_freed;
          };
      apart = v.apart;
    };
    called = (object, refl);
    others = λ k m n. (m, request_same k _);
    no_more = λ k m. m;
    gone = λ e. ground (arith, e, f);
    kept = λ _. (l, request_same h _ ∙ request-eq h object s behind.entry);
  }

  -- completeRequest of a live request calls its completion callback, if it has one, and nothing else;
  -- it ends the request exactly if that is not persistent, and leaves the other requests as they are.
  pub complete_request-Completes :
      h ≢ null
      → (d : RequestData) → request h s ≡ some d
      → Completes null h status d s (complete_request null page h status s)
  complete_request-Completes n d e =
      subst (λ d. Completes null h status d s (complete_request null page h status s))
        (some-injective _ _ (sym (request-eq h object s behind.entry) ∙ e))
        (elim (Bool-cases (s.requests object).persistent) [
          | inl f ↦ keep-Completes n f
          | inr f ↦ finish-Completes n f
        ])
