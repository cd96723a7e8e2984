-- ===== src/Openmp/Pool/Blocks.antt =====
-- How often an object stands in a vector of a pool, and what a new block adds.
use otf_cpt.Common.{
  ℕ, zero, suc, ◌+◌, ◌≤◌, ◌≡◌, List, [], ◌∷◌, arith, if◌then◌else◌, ltb, ◌==◌, length,
}
use otf_cpt.Openmp.Pool.{push_block, block_size}

abbrev pub count : ℕ → List ℕ → ℕ
count x [] = 0
count x (y ∷ r) = if x == y then suc (count x r) else count x r

-- Whether `x` is one of the `n` objects from `i` on, as a number.
abbrev pub within : ℕ → ℕ → ℕ → ℕ
within i n x = if ltb x i then 0 else if ltb x (i + n) then 1 else 0

pub count-push_block :
    (x i n : ℕ) (stack : List ℕ) → count x (push_block i n stack) ≡ within i n x + count x stack
unfolding push_block
count-push_block x i zero stack = ground arith
count-push_block x i (suc n) stack = ground (arith, count-push_block x (suc i) n (i ∷ stack))

pub length-push_block :
    (i n : ℕ) (stack : List ℕ) → length (push_block i n stack) ≡ n + length stack
unfolding push_block
length-push_block i zero stack = omega arith
length-push_block i (suc n) stack = omega (arith, length-push_block (suc i) n (i ∷ stack))

pub block_size_ge : (page elem : ℕ) → 4 ≤ block_size page elem
unfolding block_size
block_size_ge page elem = ground arith
