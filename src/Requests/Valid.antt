-- ===== src/Requests/Valid.antt =====
-- The well-formed states of the request factory, and that taking an object or a handle keeps them.
use otf_cpt.Common.{
  ℕ, zero, suc, ◌<◌, ◌≡◌, ◌≢◌, refl, sym, ◌∙◌, subst, List, [], ◌∷◌, ◌++◌, Option, none, some,
  false, arith, length, set, replicate, length-append, length-replicate, get_elem?-set_self,
  get_elem?-set_ne,
}
use otf_cpt.Requests.Factory.{Factory, push_range, table_at, new_datas, new_handles}
use otf_cpt.Requests.Distinct.{
  Absent, Distinct, Below, Below-mono, Below-push_range, Distinct-push_range, Absent-push_range,
  Absent-push_range_inv,
}

-- A handle that the application holds.
abbrev pub Live : ℕ → Factory → Type 0
Live h s = (h < length s.table) × Absent h s.available

-- The object behind a handle is one of those created, not in the pool, and not freed.
pub record Behind (s : Factory) (h : ℕ) : Type 0 where
  pub object : ℕ
  pub entry : table_at s.table h ≡ some object
  pub is_created : object < s.created
  pub not_pooled : Absent object s.pool
  pub not_freed : (s.requests object).freed ≡ false

pub record IsFactory (s : Factory) : Type 0 where
  pub pool_distinct : Distinct s.pool
  pub pool_below : Below s.created s.pool
  pub available_distinct : Distinct s.available
  pub available_below : Below (length s.table) s.available
  pub live : (h : ℕ) → Live h s → Behind s h
  pub apart :
      (h k i : ℕ)
      → Live h s
      → Live k s
      → table_at s.table h ≡ some i
      → table_at s.table k ≡ some i
      → h ≡ k

pub new_datas-IsFactory :
    (null page : ℕ) (s : Factory) → IsFactory s → IsFactory (new_datas null page s)
unfolding new_datas
new_datas-IsFactory null page s v = record {
  pool_distinct = Distinct-push_range s.created page s.pool v.pool_below v.pool_distinct;
  pool_below = Below-push_range s.created page s.pool v.pool_below;
  available_distinct = v.available_distinct;
  available_below = v.available_below;
  live = λ h l.
      let b = v.live h l in
      record {
        object = b.object;
        entry = b.entry;
        is_created = omega (arith, b.is_created);
        not_pooled = Absent-push_range s.created page b.object s.pool b.is_created b.not_pooled;
        not_freed = b.not_freed;
      };
  apart = v.apart;
}

pub pop-IsFactory :
    (s : Factory) (i : ℕ) (r : List ℕ)
    → s.pool ≡ i ∷ r
    → IsFactory s
    → IsFactory (record s { pool = r })
pop-IsFactory s i r e v = record {
  pool_distinct = (subst Distinct e v.pool_distinct).1;
  pool_below = (subst (Below s.created) e v.pool_below).1;
  available_distinct = v.available_distinct;
  available_below = v.available_below;
  live = λ h l.
      let b = v.live h l in
      record {
        object = b.object;
        entry = b.entry;
        is_created = b.is_created;
        not_pooled = (subst (Absent b.object) e b.not_pooled).1;
        not_freed = b.not_freed;
      };
  apart = v.apart;
}

pub table_at-append :
    (table more : List (Option ℕ)) (h : ℕ)
    → h < length table
    → table_at (table ++ more) h ≡ table_at table h
unfolding table_at
table_at-append [] more h l = absurd (omega arith)
table_at-append (x ∷ table) more zero l = refl
table_at-append (x ∷ table) more (suc h) l = table_at-append table more h (omega arith)

pub table_at-set_self :
    (table : List (Option ℕ)) (h i : ℕ)
    → h < length table
    → table_at (set table h (some i)) h ≡ some i
unfolding table_at
table_at-set_self table h i l = rw (get_elem?-set_self table h (some i) l, table_at)

pub table_at-set_ne :
    (table : List (Option ℕ)) (h k i : ℕ)
    → h ≢ k
    → table_at (set table h (some i)) k ≡ table_at table k
unfolding table_at
table_at-set_ne table h k i n = rw (get_elem?-set_ne table (some i) n, table_at)

-- The handles that `newAH` adds are not live.
pub new_handles-Live :
    (null page : ℕ) (s : Factory) (h : ℕ) → Live h (new_handles null page s) → Live h s
unfolding new_handles
new_handles-Live null page s h l =
    let (a, o) = Absent-push_range_inv (length s.table) 64 h s.available l.1 in
    (
      omega (
        arith,
        o,
        l.0,
        length-append s.table (replicate 64 none),
        length-replicate {A = Option ℕ} 64 none,
      ),
      a,
    )

pub new_handles-IsFactory :
    (null page : ℕ) (s : Factory) → IsFactory s → IsFactory (new_handles null page s)
unfolding new_handles
new_handles-IsFactory null page s v = record {
  pool_distinct = v.pool_distinct;
  pool_below = v.pool_below;
  available_distinct =
      Distinct-push_range (length s.table) 64 s.available v.available_below v.available_distinct;
  available_below =
      Below-mono (push_range (length s.table) 64 s.available)
        (omega (
          arith,
          length-append s.table (replicate 64 none),
          length-replicate {A = Option ℕ} 64 none,
        ))
        (Below-push_range (length s.table) 64 s.available v.available_below);
  live = λ h l.
      let l' = new_handles-Live null page s h l in
      let b = v.live h l' in
      record {
        object = b.object;
        entry = table_at-append s.table _ h l'.0 ∙ b.entry;
        is_created = b.is_created;
        not_pooled = b.not_pooled;
        not_freed = b.not_freed;
      };
  apart = λ h k i l m p q.
      let l' = new_handles-Live null page s h l in
      let m' = new_handles-Live null page s k m in
      v.apart h k i l' m' (sym (table_at-append s.table _ h l'.0) ∙ p)
        (sym (table_at-append s.table _ k m'.0) ∙ q);
}
