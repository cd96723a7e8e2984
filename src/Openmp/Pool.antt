-- ===== src/Openmp/Pool.antt =====
-- src/ompt-critical.cpp: `DataPool` and `DataPoolEntry`, the pools of reusable objects, one pool for
-- each thread and each type of object. An object is its number, counted in the order of construction.
-- The vectors are lists with the back first. The result `none` is `back()` of an empty vector.
-- `ThreadDataPool` of thread `t` is `pool t`. Only thread `t` touches `data_pointer` of its pool, and
-- the others its `remote_data_pointer` under the lock, so that each operation is one step.
pub mod Blocks
pub mod Exclusive
pub mod Filled
mod Tests
use otf_cpt.Common.{
  ℕ, zero, suc, ◌+◌, ◌-◌, ◌*◌, ◌/◌, Option, none, some, List, [], ◌∷◌, length, update,
  if◌then◌else◌, ltb, ◌==◌,
}

pub record Pool : Type 0 where
  pub data_pointer : List ℕ
  pub remote_data_pointer : List ℕ
  pub memory : List ℕ  -- the first object of each block
  pub remote : ℕ
  pub total : ℕ

pub record Pools : Type 0 where
  pub pool : ℕ → Pool
  pub owner : ℕ → ℕ
  pub created : ℕ

unfoldable pub new_pool : Pool
new_pool = record {
  data_pointer = [];
  remote_data_pointer = [];
  memory = [];
  remote = 0;
  total = 0;
}

-- The pools of the threads, before any object was made.
unfoldable pub new_pools : Pools
unfolding new_pool
new_pools = record { pool = λ t. new_pool; owner = λ x. 0; created = 0 }

-- `push_back` of the `n` objects from `i` on, each made by `T(this)`.
unfoldable pub push_block : ℕ → ℕ → List ℕ → List ℕ
push_block i zero stack = stack
push_block i (suc n) stack = push_block (suc i) n (i ∷ stack)

abbrev pub owned_block : ℕ → ℕ → ℕ → (ℕ → ℕ) → ℕ → ℕ
owned_block t i n owner j = if ltb j i then owner j else if ltb j (i + n) then t else owner j

-- The number of objects in a new block, from the sizes of a page and of an object.
unfoldable pub block_size : ℕ → ℕ → ℕ
block_size page_size elem_size =
    let padded_size = ((elem_size - 1) / 64 + 1) * 64 in
    let ndatas = page_size / padded_size in if ltb ndatas 4 then 4 else ndatas

-- The end of `getData`: `back()` and `pop_back()`.
unfoldable pub pop_data : ℕ → Pools → Option (ℕ × Pools)
pop_data t ps = elim (ps.pool t).data_pointer [
  | [] ↦ none
  | x ∷ r ↦
      some (x, record ps { pool = update ps.pool t (record (ps.pool t) { data_pointer = r }) })
]

module _ (page_size elem_size : ℕ) where
  unfoldable pub new_datas : ℕ → Pools → Pools
  unfolding push_block block_size
  new_datas t ps =
      let p = ps.pool t in
      let ndatas = block_size page_size elem_size in
      if ltb 0 p.remote
      then record ps {
        pool = update ps.pool t (record p {
          data_pointer = p.remote_data_pointer;
          remote_data_pointer = p.data_pointer;
          remote = 0;
        });
      }
      else record {
        pool = update ps.pool t (record p {
          data_pointer = push_block ps.created ndatas p.data_pointer;
          memory = ps.created ∷ p.memory;
          total = p.total + ndatas;
        });
        owner = owned_block t ps.created ndatas ps.owner;
        created = ps.created + ndatas;
      }

  unfoldable pub get_data : ℕ → Pools → Option (ℕ × Pools)
  unfolding new_datas pop_data
  get_data t ps = elim (ps.pool t).data_pointer [
    | [] ↦ pop_data t (new_datas t ps)
    | x ∷ r ↦ pop_data t ps
  ]

unfoldable pub return_own_data : ℕ → ℕ → Pools → Pools
return_own_data t x ps =
    let p = ps.pool t in
    record ps { pool = update ps.pool t (record p { data_pointer = x ∷ p.data_pointer }) }

unfoldable pub return_data : ℕ → ℕ → Pools → Pools
return_data o x ps =
    let p = ps.pool o in
    record ps {
      pool =
          update ps.pool o
            (record p { remote_data_pointer = x ∷ p.remote_data_pointer; remote = suc p.remote });
    }

-- `DataPoolEntry::Delete` on thread `t`, after the object's own `Reset`.
unfoldable pub delete : ℕ → ℕ → Pools → Pools
unfolding return_own_data return_data
delete t x ps =
    if ps.owner x == t then return_own_data (ps.owner x) x ps else return_data (ps.owner x) x ps

unfoldable pub get_missing : Pool → ℕ
get_missing p = p.total - length p.data_pointer - length p.remote_data_pointer
