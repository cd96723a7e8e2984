-- ===== src/Requests/Taken.antt =====
-- Taking an object from the pool and a handle from the table succeeds, and what is taken is fresh.
use otf_cpt.Common.{
  ℕ, ◌<◌, ◌≡◌, ◌≢◌, refl, sym, ap, ◌∙◌, subst, List, [], ◌∷◌, Option, none, some, arith, length,
  set, replicate, some-injective, length-append, length-set, if◌then◌else◌,
}
use otf_cpt.Requests.Factory.{
  Factory, push_range, table_at, new_datas, new_handles, is_empty, get_data, enter_table, pop_data,
  pop_handle,
}
use otf_cpt.Requests.Distinct.{Absent, Distinct, Below, push_range-top, Absent-push_range}
use otf_cpt.Requests.Valid.{
  Live, IsFactory, new_datas-IsFactory, pop-IsFactory, new_handles-IsFactory, new_handles-Live,
  table_at-append, table_at-set_self, table_at-set_ne,
}

-- An object was taken: it is created, no longer in the pool and behind no live handle.
pub record TakenData (s : Factory) (r : Option (ℕ × Factory)) : Type 0 where
  pub object : ℕ
  pub state : Factory
  pub returned : r ≡ some (object, state)
  pub valid : IsFactory state
  pub same_requests : state.requests ≡ s.requests
  pub same_table : state.table ≡ s.table
  pub same_available : state.available ≡ s.available
  pub same_log : state.log ≡ s.log
  pub is_created : object < state.created
  pub not_pooled : Absent object state.pool
  pub fresh : (h : ℕ) → Live h state → table_at state.table h ≢ some object

module _ (null page : ℕ) where
  pop_data-Taken :
      (s : Factory) (i : ℕ) (r : List ℕ)
      → s.pool ≡ i ∷ r
      → IsFactory s
      → TakenData s (pop_data null page s)
  unfolding pop_data
  pop_data-Taken s i r e v = record {
    object = i;
    state = record s { pool = r };
    returned = pop_data-eq s.pool e;
    valid = pop-IsFactory s i r e v;
    same_requests = refl;
    same_table = refl;
    same_available = refl;
    same_log = refl;
    is_created = (subst (Below s.created) e v.pool_below).0;
    not_pooled = (subst Distinct e v.pool_distinct).0;
    fresh = λ h l t.
        let b = v.live h l in
        (subst (Absent b.object) e b.not_pooled).0 (some-injective _ _ (sym b.entry ∙ t));
  }
    where
      pop_data-eq :
          (pool : List ℕ)
          → pool ≡ i ∷ r
          → (elim pool as (λ _. Option (ℕ × Factory)) [
            | [] ↦ none
            | i ∷ pool ↦ some (i, record s { pool = pool })
          ])
            ≡ some (i, record s { pool = r })
      pop_data-eq pool e = rw e

  widen :
      (s : Factory) {r : Option (ℕ × Factory)} → TakenData (new_datas null page s) r → TakenData s r
  unfolding new_datas
  widen s t = record {
    object = t.object;
    state = t.state;
    returned = t.returned;
    valid = t.valid;
    same_requests = t.same_requests;
    same_table = t.same_table;
    same_available = t.same_available;
    same_log = t.same_log;
    is_created = t.is_created;
    not_pooled = t.not_pooled;
    fresh = t.fresh;
  }

  pub get_data-Taken : (s : Factory) → 0 < page → IsFactory s → TakenData s (get_data null page s)
  unfolding get_data
  get_data-Taken s p v = go s.pool refl
    where
      go :
          (pool : List ℕ)
          → s.pool ≡ pool
          → TakenData s
              (pop_data null page (if is_empty null page pool then new_datas null page s else s))
      go [] e =
          let (i, (r, q)) = push_range-top s.created page [] p in
          widen s (
            pop_data-Taken (new_datas null page s) i r (ap (push_range s.created page) e ∙ q)
              (new_datas-IsFactory null page s v))
      go (i ∷ r) e = pop_data-Taken s i r e v

-- A handle was taken: it leads to the object, and the live handles are the old ones and this one.
pub record TakenHandle (i : ℕ) (s : Factory) (r : Option (ℕ × Factory)) : Type 0 where
  pub handle : ℕ
  pub state : Factory
  pub returned : r ≡ some (handle, state)
  pub same_requests : state.requests ≡ s.requests
  pub same_pool : state.pool ≡ s.pool
  pub same_created : state.created ≡ s.created
  pub same_log : state.log ≡ s.log
  pub entry : table_at state.table handle ≡ some i
  pub was_free : (k : ℕ) → Live k s → k ≢ handle
  pub is_live : Live handle state
  pub stays : (k : ℕ) → Live k s → Live k state × (table_at state.table k ≡ table_at s.table k)
  pub was_live : (k : ℕ) → Live k state → k ≢ handle → Live k s
  pub available_distinct : Distinct state.available
  pub available_below : Below (length state.table) state.available

module _ (null page : ℕ) where
  pop_handle-Taken :
      (i : ℕ) (s : Factory) (h : ℕ) (r : List ℕ)
      → s.available ≡ h ∷ r
      → IsFactory s
      → TakenHandle i s (pop_handle null page i s)
  unfolding pop_handle
  pop_handle-Taken i s h r e v =
      let below = subst (Below (length s.table)) e v.available_below in
      let distinct = subst Distinct e v.available_distinct in
      let size = length-set s.table h (some i) in
      record {
        handle = h;
        state = record s { available = r; table = set s.table h (some i) };
        returned = pop_handle-eq s.available e;
        same_requests = refl;
        same_pool = refl;
        same_created = refl;
        same_log = refl;
        entry = table_at-set_self s.table h i below.0;
        was_free = λ k l. (subst (Absent k) e l.1).0;
        is_live = (omega (arith, size, below.0), distinct.0);
        stays = λ k l.
            let a = subst (Absent k) e l.1 in
            ((omega (arith, size, l.0), a.1), table_at-set_ne s.table h k i (λ q. a.0 (sym q)));
        was_live = λ k l n. (omega (arith, size, l.0), subst (Absent k) (sym e) (n, l.1));
        available_distinct = distinct.1;
        available_below = subst (λ n. Below n r) (sym size) below.1;
      }
    where
      pop_handle-eq :
          (available : List ℕ)
          → available ≡ h ∷ r
          → (elim available as (λ _. Option (ℕ × Factory)) [
            | [] ↦ none
            | h ∷ available ↦
                some (h, record s { available = available; table = set s.table h (some i) })
          ])
            ≡ some (h, record s { available = r; table = set s.table h (some i) })
      pop_handle-eq available e = rw e

  grown :
      (i : ℕ) (s : Factory) {r : Option (ℕ × Factory)}
      → s.available ≡ []
      → TakenHandle i (new_handles null page s) r
      → TakenHandle i s r
  unfolding new_handles
  grown i s e t = record {
    handle = t.handle;
    state = t.state;
    returned = t.returned;
    same_requests = t.same_requests;
    same_pool = t.same_pool;
    same_created = t.same_created;
    same_log = t.same_log;
    entry = t.entry;
    was_free = λ k l. t.was_free k (old k l);
    is_live = t.is_live;
    stays = λ k l. let (a, b) = t.stays k (old k l) in (a, b ∙ table_at-append s.table _ k l.0);
    was_live = λ k l n. new_handles-Live null page s k (t.was_live k l n);
    available_distinct = t.available_distinct;
    available_below = t.available_below;
  }
    where
      old : (k : ℕ) → Live k s → Live k (new_handles null page s)
      old k l = (
        omega (arith, l.0, length-append s.table (replicate 64 none)),
        Absent-push_range (length s.table) 64 k s.available l.0 l.1,
      )

  pub enter_table-Taken :
      (i : ℕ) (s : Factory) → IsFactory s → TakenHandle i s (enter_table null page i s)
  unfolding enter_table
  enter_table-Taken i s v = go s.available refl
    where
      go :
          (available : List ℕ)
          → s.available ≡ available
          → TakenHandle i s (
              pop_handle null page i
                (if is_empty null page available then new_handles null page s else s))
      go [] e =
          let (h, (r, q)) = push_range-top (length s.table) 64 [] (omega arith) in
          grown i s e (
            pop_handle-Taken i (new_handles null page s) h r
              (ap (push_range (length s.table) 64) e ∙ q) (new_handles-IsFactory null page s v))
      go (h ∷ r) e = pop_handle-Taken i s h r e v
