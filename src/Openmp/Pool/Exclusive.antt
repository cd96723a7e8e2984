-- ===== src/Openmp/Pool/Exclusive.antt =====
-- What the pools promise to the threads that take objects from them and give them back.
use mathlib.Core.Path.{subst₂}
use otf_cpt.Common.{
  ℕ, ◌+◌, ◌<◌, ◌≡◌, refl, ap, Bool, true, false, inl, inr, Option, some, List, [], ◌∷◌, arith,
  length, update, update-Each, List-cases, if◌then◌else◌, ltb, ◌==◌, Bool-cases,
}
use otf_cpt.Openmp.Pool.{
  Pool, Pools, new_pools, owned_block, block_size, new_datas, pop_data, get_data, delete,
}
use otf_cpt.Openmp.Pool.Blocks.{count, count-push_block, length-push_block, block_size_ge}

abbrev pub one : Bool → ℕ
one true = 1
one false = 0

-- The object `x` in the pool `q` of thread `p`, while `owner`, `held` and `created` are about it.
abbrev Once : (x owner created : ℕ) → Bool → ℕ → Pool → Type 0
Once x owner created held p q =
    count x q.data_pointer + count x q.remote_data_pointer + (if owner == p then one held else 0)
    ≡ (if owner == p then one (ltb x created) else 0)

-- Each object that was created is once in one place: in a vector of its owner's pool, or held.
-- Objects that were not created are nowhere. `remote` counts the objects that others gave back.
pub record IsPools (held : ℕ → Bool) (ps : Pools) : Type 0 where
  pub once : (x p : ℕ) → Once x (ps.owner x) ps.created (held x) p (ps.pool p)
  pub counted : (p : ℕ) → (ps.pool p).remote ≡ length (ps.pool p).remote_data_pointer

count_empty : (x : ℕ) {l : List ℕ} → l ≡ [] → count x l ≡ 0
count_empty x e = rw e

-- Giving back an object that is held makes it free.
delete-IsPools :
    (t x : ℕ) (held : ℕ → Bool) (ps : Pools)
    → held x ≡ true
    → IsPools held ps
    → IsPools (update held x false) (delete t x ps)
unfolding delete
delete-IsPools t x held ps h v = elim (Bool-cases (ps.owner x == t)) [
  | inl own ↦ rw own (record {
    once = λ y.
        update-Each (Once y (ps.owner y) ps.created (update held x false y)) ps.pool (ps.owner x) _
          (ground (arith, v.once y (ps.owner x), h)) (λ p n. ground (arith, v.once y p, n));
    counted =
        update-Each (λ p q. q.remote ≡ length q.remote_data_pointer) ps.pool (ps.owner x) _
          (v.counted (ps.owner x)) (λ p n. v.counted p);
  })
  | inr foreign ↦ rw foreign (record {
    once = λ y.
        update-Each (Once y (ps.owner y) ps.created (update held x false y)) ps.pool (ps.owner x) _
          (ground (arith, v.once y (ps.owner x), h)) (λ p n. ground (arith, v.once y p, n));
    counted =
        update-Each (λ p q. q.remote ≡ length q.remote_data_pointer) ps.pool (ps.owner x) _
          (omega (arith, v.counted (ps.owner x))) (λ p n. v.counted p);
  })
]

-- Thread `t` takes an object that nobody held, and all is as before but that it is held.
pub record Takes (t : ℕ) (held : ℕ → Bool) (ps : Pools) (r : Option (ℕ × Pools)) : Type 0 where
  pub object : ℕ
  pub after : Pools
  pub returned : r ≡ some (object, after)
  pub free : held object ≡ false
  pub valid : IsPools (update held object true) after

pop_data-Takes :
    (t : ℕ) (held : ℕ → Bool) (ps : Pools) (x : ℕ) (r : List ℕ)
    → (ps.pool t).data_pointer ≡ x ∷ r
    → IsPools held ps
    → Takes t held ps (pop_data t ps)
unfolding pop_data
pop_data-Takes t held ps x r e v =
    let owned : (ps.owner x ≡ t) × (held x ≡ false) × (x < ps.created) =
      ground (arith, v.once x t, e) in
    record {
      object = x;
      after = record ps { pool = update ps.pool t (record (ps.pool t) { data_pointer = r }) };
      returned = rw (e, pop_data);
      free = owned.1;
      valid = record {
        once = λ y.
            update-Each (Once y (ps.owner y) ps.created (update held x true y)) ps.pool t _
              (ground (arith, v.once y t, e, owned)) (λ p n. ground (arith, v.once y p, owned, n));
        counted =
            update-Each (λ p q. q.remote ≡ length q.remote_data_pointer) ps.pool t _ (v.counted t)
              (λ p n. v.counted p);
      };
    }

module _ (page_size elem_size : ℕ) where
  -- What a new block, or the exchange of the two vectors, leaves.
  new_datas-IsPools :
      (t : ℕ) (held : ℕ → Bool) (ps : Pools)
      → (ps.pool t).data_pointer ≡ []
      → IsPools held ps
      → IsPools held (new_datas page_size elem_size t ps)
  unfolding new_datas
  new_datas-IsPools t held ps e v = elim (Bool-cases (ltb 0 (ps.pool t).remote)) [
    | inl swapped ↦ rw swapped (record {
      once = λ x.
          update-Each (Once x (ps.owner x) ps.created (held x)) ps.pool t _
            (omega (arith, v.once x t)) (λ p n. v.once x p);
      counted =
          update-Each (λ p q. q.remote ≡ length q.remote_data_pointer) ps.pool t _ (rw e)
            (λ p n. v.counted p);
    })
    | inr grown ↦ rw grown (record {
      once = λ x.
          update-Each
            (Once x (owned_block t ps.created (block_size page_size elem_size) ps.owner x)
              (ps.created + block_size page_size elem_size) (held x))
            ps.pool t _
            (ground (
              arith,
              v.once x t,
              v.once x (ps.owner x),
              count_empty x e,
              count-push_block x ps.created (block_size page_size elem_size)
                  (ps.pool t).data_pointer,
            ))
            (λ p n. ground (arith, v.once x p, v.once x (ps.owner x)));
      counted =
          update-Each (λ p q. q.remote ≡ length q.remote_data_pointer) ps.pool t _ (v.counted t)
            (λ p n. v.counted p);
    })
  ]

  new_datas-length :
      (t : ℕ) (held : ℕ → Bool) (ps : Pools)
      → IsPools held ps
      → 0 < length ((new_datas page_size elem_size t ps).pool t).data_pointer
  unfolding new_datas
  new_datas-length t held ps v = ground (
    arith,
    v.counted t,
    block_size_ge page_size elem_size,
    length-push_block ps.created (block_size page_size elem_size) (ps.pool t).data_pointer,
  )

  get_data-Takes :
      (t : ℕ) (held : ℕ → Bool) (ps : Pools)
      → IsPools held ps
      → Takes t held ps (get_data page_size elem_size t ps)
  unfolding get_data
  get_data-Takes t held ps v = elim (List-cases (ps.pool t).data_pointer) [
    | inr (x, r, e) ↦ rw (e, get_data) (pop_data-Takes t held ps x r e v)
    | inl e ↦ rw (e, get_data) (refilled e)
  ]
    where
      filled : Pools
      filled = new_datas page_size elem_size t ps

      refilled : (ps.pool t).data_pointer ≡ [] → Takes t held ps (pop_data t filled)
      refilled e = elim (List-cases (filled.pool t).data_pointer) [
        | inl none_left ↦ absurd (omega (arith, new_datas-length t held ps v, ap length none_left))
        | inr (x, r, f) ↦
            let w = pop_data-Takes t held filled x r f (new_datas-IsPools t held ps e v) in
            record {
              object = w.object;
              after = w.after;
              returned = w.returned;
              free = w.free;
              valid = w.valid;
            }
      ]

-- A thread takes an object, or gives one back that it or another thread holds.
pub data Step (page elem : ℕ) : (ℕ → Bool) → Pools → (ℕ → Bool) → Pools → Type 0 where
  take :
      {held : ℕ → Bool} {ps ps' : Pools} (t x : ℕ)
      → get_data page elem t ps ≡ some (x, ps')
      → Step page elem held ps (update held x true) ps'
  give :
      {held : ℕ → Bool} {ps : Pools} (t x : ℕ)
      → held x ≡ true
      → Step page elem held ps (update held x false) (delete t x ps)

pub data Reach (page elem : ℕ) : (ℕ → Bool) → Pools → Type 0 where
  here : Reach page elem (λ x. false) new_pools
  next :
      {held held' : ℕ → Bool} {ps ps' : Pools}
      → Reach page elem held ps
      → Step page elem held ps held' ps'
      → Reach page elem held' ps'

new_pools-IsPools : IsPools (λ x. false) new_pools
unfolding new_pools
new_pools-IsPools = record { once = λ x p. ground arith; counted = λ p. refl }

same_result :
    {r : Option (ℕ × Pools)} {x y : ℕ} {ps ps' : Pools}
    → r ≡ some (x, ps)
    → r ≡ some (y, ps')
    → (x ≡ y) × (ps ≡ ps')
same_result p q = (cc, cc)

Step-IsPools :
    {page elem : ℕ} {held held' : ℕ → Bool} {ps ps' : Pools}
    → Step page elem held ps held' ps'
    → IsPools held ps
    → IsPools held' ps'
Step-IsPools {page} {elem} {held} {ps} (take t x e) v =
    let w = get_data-Takes page elem t held ps v in
    let same = same_result w.returned e in
    subst₂ (λ y p. IsPools (update held y true) p) same.0 same.1 w.valid
Step-IsPools (give t x h) v = delete-IsPools t x _ _ h v

Reach-IsPools :
    {page elem : ℕ} {held : ℕ → Bool} {ps : Pools} → Reach page elem held ps → IsPools held ps
Reach-IsPools here = new_pools-IsPools
Reach-IsPools (next r st) = Step-IsPools st (Reach-IsPools r)

-- Whatever objects the threads have taken and given back, in any order and on any threads, getData
-- returns an object on every thread, which nobody held. Afterwards each object that was created is
-- still exactly once in a vector of its owner's pool, or held.
pub Reach-Takes :
    {page elem : ℕ} {held : ℕ → Bool} {ps : Pools} (t : ℕ)
    → Reach page elem held ps
    → Takes t held ps (get_data page elem t ps)
Reach-Takes t r = get_data-Takes _ _ t _ _ (Reach-IsPools r)
