-- ===== src/Openmp/Pool/Filled.antt =====
-- A weaker invariant of the pools, which holds whatever objects are given back: enough for `getData`
-- to return an object that exists.
use otf_cpt.Common.{
  ℕ, zero, suc, ◌+◌, ◌<◌, ◌≤◌, ◌≡◌, refl, ap, inl, inr, Option, some, List, [], ◌∷◌, arith, length,
  subst, update, update-Each, List-cases, All, ltb, ◌==◌, Bool-cases,
}
use otf_cpt.Openmp.Pool.{
  Pool, Pools, new_pools, push_block, block_size, new_datas, pop_data, get_data, delete,
}
use otf_cpt.Openmp.Pool.Blocks.{length-push_block, block_size_ge}

-- The vectors hold objects that exist, and `remote` counts those that others gave back.
pub record IsFull (created : ℕ) (p : Pool) : Type 0 where
  pub own : All (λ x. x < created) p.data_pointer
  pub given : All (λ x. x < created) p.remote_data_pointer
  pub counted : p.remote ≡ length p.remote_data_pointer

pub record IsFilled (ps : Pools) : Type 0 where
  pub each : (t : ℕ) → IsFull ps.created (ps.pool t)

pub new_pools-IsFilled : IsFilled new_pools
unfolding new_pools
new_pools-IsFilled = record { each = λ t. record { own = tt; given = tt; counted = refl } }

All-lt_mono : {a b : ℕ} (l : List ℕ) → a ≤ b → All (λ x. x < a) l → All (λ x. x < b) l
All-lt_mono [] h all = tt
All-lt_mono (x ∷ l) h all = (omega arith, All-lt_mono l h all.1)

IsFull-mono : {a b : ℕ} (p : Pool) → a ≤ b → IsFull a p → IsFull b p
IsFull-mono p h v = record {
  own = All-lt_mono p.data_pointer h v.own;
  given = All-lt_mono p.remote_data_pointer h v.given;
  counted = v.counted;
}

All-push_block :
    (b i n : ℕ) (l : List ℕ) → i + n ≤ b → All (λ x. x < b) l → All (λ x. x < b) (push_block i n l)
unfolding push_block
All-push_block b i zero l h all = all
All-push_block b i (suc n) l h all =
    All-push_block b (suc i) n (i ∷ l) (omega arith) (omega arith, all)

-- An object that exists was taken, and the pools are still filled.
pub record Hands (ps : Pools) (r : Option (ℕ × Pools)) : Type 0 where
  pub object : ℕ
  pub after : Pools
  pub returned : r ≡ some (object, after)
  pub exists : object < after.created
  pub grows : ps.created ≤ after.created
  pub filled : IsFilled after

pop_data-Hands :
    (t : ℕ) (ps : Pools) (x : ℕ) (r : List ℕ)
    → (ps.pool t).data_pointer ≡ x ∷ r
    → IsFilled ps
    → Hands ps (pop_data t ps)
unfolding pop_data
pop_data-Hands t ps x r e v =
    let own : All (λ y. y < ps.created) (x ∷ r) =
      subst (All (λ y. y < ps.created)) e (v.each t).own in
    record {
      object = x;
      after = record ps { pool = update ps.pool t (record (ps.pool t) { data_pointer = r }) };
      returned = rw (e, pop_data);
      exists = own.0;
      grows = omega arith;
      filled = record {
        each =
            update-Each (λ j. IsFull ps.created) ps.pool t _
              (record { own = own.1; given = (v.each t).given; counted = (v.each t).counted })
              (λ j n. v.each j);
      };
    }

-- The object goes to a vector of its owner's pool.
pub delete-IsFilled :
    (t x : ℕ) (ps : Pools) → x < ps.created → IsFilled ps → IsFilled (delete t x ps)
unfolding delete
delete-IsFilled t x ps h v = elim (Bool-cases (ps.owner x == t)) [
  | inl own ↦ rw own (record {
    each =
        update-Each (λ j. IsFull ps.created) ps.pool (ps.owner x) _
          (record { own = (h, q.own); given = q.given; counted = q.counted }) (λ j n. v.each j);
  })
  | inr foreign ↦ rw foreign (record {
    each =
        update-Each (λ j. IsFull ps.created) ps.pool (ps.owner x) _
          (record { own = q.own; given = (h, q.given); counted = ap suc q.counted })
          (λ j n. v.each j);
  })
]
  where
    q : IsFull ps.created (ps.pool (ps.owner x))
    q = v.each (ps.owner x)

pub created-delete : (t x : ℕ) (ps : Pools) → (delete t x ps).created ≡ ps.created
unfolding delete
created-delete t x ps = ground arith

module _ (page_size elem_size : ℕ) where
  new_datas-IsFilled :
      (t : ℕ) (ps : Pools)
      → (ps.pool t).data_pointer ≡ []
      → IsFilled ps
      → IsFilled (new_datas page_size elem_size t ps)
  unfolding new_datas
  new_datas-IsFilled t ps e v = elim (Bool-cases (ltb 0 (ps.pool t).remote)) [
    | inl swapped ↦ rw swapped (record {
      each =
          update-Each (λ j. IsFull ps.created) ps.pool t _
            (record { own = (v.each t).given; given = (v.each t).own; counted = rw e })
            (λ j n. v.each j);
    })
    | inr grown ↦ rw grown (record {
      each =
          update-Each (λ j. IsFull (ps.created + block_size page_size elem_size)) ps.pool t _
            (record {
              own =
                  All-push_block _ ps.created (block_size page_size elem_size) _ (omega arith)
                    (All-lt_mono _ (omega arith) (v.each t).own);
              given = All-lt_mono _ (omega arith) (v.each t).given;
              counted = (v.each t).counted;
            })
            (λ j n. IsFull-mono _ (omega arith) (v.each j));
    })
  ]

  new_datas-length :
      (t : ℕ) (ps : Pools)
      → IsFilled ps
      → 0 < length ((new_datas page_size elem_size t ps).pool t).data_pointer
  unfolding new_datas
  new_datas-length t ps v = ground (
    arith,
    (v.each t).counted,
    block_size_ge page_size elem_size,
    length-push_block ps.created (block_size page_size elem_size) (ps.pool t).data_pointer,
  )

  new_datas_grows : (t : ℕ) (ps : Pools) → ps.created ≤ (new_datas page_size elem_size t ps).created
  unfolding new_datas
  new_datas_grows t ps = ground arith

  pub get_data-Hands :
      (t : ℕ) (ps : Pools) → IsFilled ps → Hands ps (get_data page_size elem_size t ps)
  unfolding get_data
  get_data-Hands t ps v = elim (List-cases (ps.pool t).data_pointer) [
    | inr (x, r, e) ↦ rw (e, get_data) (pop_data-Hands t ps x r e v)
    | inl e ↦ rw (e, get_data) (refilled e)
  ]
    where
      full : Pools
      full = new_datas page_size elem_size t ps

      refilled : (ps.pool t).data_pointer ≡ [] → Hands ps (pop_data t full)
      refilled e = elim (List-cases (full.pool t).data_pointer) [
        | inl none_left ↦ absurd (omega (arith, new_datas-length t ps v, ap length none_left))
        | inr (x, r, f) ↦
            let w = pop_data-Hands t full x r f (new_datas-IsFilled t ps e v) in
            record {
              object = w.object;
              after = w.after;
              returned = w.returned;
              exists = w.exists;
              grows = omega (arith, w.grows, new_datas_grows t ps);
              filled = w.filled;
            }
      ]
