-- ===== src/Openmp/Pool/Tests.antt =====
-- Two threads and their pools: thread 1 takes an object, and thread 2 gives it back.
use otf_cpt.Common.{ℕ, ◌≡◌, refl, true, false, update, Option, some, none}
use mathlib.Core.Option
use otf_cpt.Openmp.Pool.{Pools, new_pools, get_data, delete, get_missing}
use otf_cpt.Openmp.Pool.Exclusive.{take, give, here, next, Reach, Takes, Reach-Takes}

-- Objects of 200 bytes on pages of 4096: sixteen to a block, the last one first.
abbrev filled : Option (ℕ × Pools)
filled = get_data 4096 200 1 new_pools

filled_pool :
    Option.map {B = ℕ × ℕ × ℕ × ℕ}
      (λ r. (r.0, r.1.created, (r.1.pool 1).total, get_missing (r.1.pool 1)))
      filled
    ≡ some (15, 16, 16, 1)
unfolding get_data new_pools get_missing
filled_pool = refl

abbrev or_new : Option (ℕ × Pools) → Pools
or_new none = new_pools
or_new (some r) = r.1

given_back :
    Reach 4096 200 (update (update (λ x. false) 15 true) 15 false) (delete 2 15 (or_new filled))
unfolding get_data new_pools
given_back = next (next here (take 1 15 refl)) (give 2 15 refl)

Reach-Takes_example :
    Takes 1
      (update (update (λ x. false) 15 true) 15 false)
      (delete 2 15 (or_new filled))
      (get_data 4096 200 1 (delete 2 15 (or_new filled)))
Reach-Takes_example = Reach-Takes 1 given_back
