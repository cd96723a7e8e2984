-- ===== src/Containers/Vector/Buffer.antt =====
-- include/containers/Vector.h: the memory of a vector and the loops over it. A cell is `none` while
-- it is raw memory. The result `none` is undefined behaviour: a read of raw memory, an assignment
-- to raw memory, or an access past the buffer. A move is a copy whose source is not read again.
-- `malloc` does not return a null pointer, but the number of bytes that it is asked for wraps.
use otf_cpt.Common.{
  ℕ, zero, suc, ◌+◌, ◌*◌, ◌/◌, ◌%◌, ◌^◌, ◌<◌, Option, none, some, List, [], ◌∷◌, if◌then◌else◌, ltb,
  leb, update,
}

-- The memory at `begin_`: the number of cells that it has room for, and `last_ - begin_`, which is what
-- the vector takes that number for.
pub record Buffer (A : Type 0) : Type 0 where
  pub cap : ℕ
  pub last : ℕ
  pub cells : ℕ → Option A

-- `sizeof(T)`
pub record Sized (A : Type 0) : Type 0 where
  pub size_of : ℕ
  pub pos : 0 < size_of

-- No buffer: three null pointers.
unfoldable pub no_buffer : {A : Type 0} → Buffer A
no_buffer = record { cap = 0; last = 0; cells = λ i. none }

-- `malloc(cap * sizeof(T))`
unfoldable pub malloc : {A : Type 0} ⦃sized : Sized A⦄ → ℕ → Buffer A
malloc {A} ⦃sized⦄ cap = record {
  cap = cap * sized.size_of % 2 ^ 64 / sized.size_of;
  last = cap;
  cells = λ i. none;
}

module _ {A : Type 0} where
  -- Placement new.
  unfoldable pub construct : ℕ → A → Buffer A → Option (Buffer A)
  construct i x b =
      if ltb i b.cap then some (record b { cells = update b.cells i (some x) }) else none

  -- `begin_[i] = x`
  unfoldable pub assign_to : ℕ → A → Buffer A → Option (Buffer A)
  assign_to i x b = elim (b.cells i) [
    | none ↦ none
    | some _ ↦ some (record b { cells = update b.cells i (some x) })
  ]

  unfoldable pub destroy : ℕ → Buffer A → Buffer A
  destroy i b = record b { cells = update b.cells i none }

  -- Destroys the `n` elements from `i` on.
  unfoldable pub destroy_range : ℕ → ℕ → Buffer A → Buffer A
  unfolding destroy
  destroy_range i zero b = b
  destroy_range i (suc n) b = destroy_range (suc i) n (destroy i b)

  -- One round of the loop of `insert`: `end` splits raw memory from initialised cells.
  unfoldable pub shift_cell : ℕ → ℕ → ℕ → Buffer A → Option (Buffer A)
  unfolding construct assign_to
  shift_cell end to from b = elim (b.cells from) [
    | none ↦ none
    | some x ↦ if leb end to then construct to x b else assign_to to x b
  ]

  -- Moves the `k` elements from `pos` on up by `n`, the last one first.
  unfoldable pub shift_up : ℕ → ℕ → ℕ → ℕ → Buffer A → Option (Buffer A)
  unfolding shift_cell
  shift_up end pos n zero b = some b
  shift_up end pos n (suc k) b = elim (shift_cell end (pos + k + n) (pos + k) b) [
    | none ↦ none
    | some b' ↦ shift_up end pos n k b'
  ]

  -- Moves the `k` elements from `from` on down to `to`, the first one first (`erase`).
  unfoldable pub shift_down : ℕ → ℕ → ℕ → Buffer A → Option (Buffer A)
  unfolding assign_to
  shift_down to from zero b = some b
  shift_down to from (suc k) b = elim (b.cells from) [
    | none ↦ none
    | some x ↦ elim (assign_to to x b) [
      | none ↦ none
      | some b' ↦ shift_down (suc to) (suc from) k b'
    ]
  ]

  -- Constructs the given elements from `i` on.
  unfoldable pub construct_range : ℕ → List A → Buffer A → Option (Buffer A)
  unfolding construct
  construct_range i [] b = some b
  construct_range i (x ∷ xs) b = elim (construct i x b) [
    | none ↦ none
    | some b' ↦ construct_range (suc i) xs b'
  ]

  -- The loop of `ensure_size`: moves the `k` elements from `i` on from one buffer to another.
  unfoldable pub transfer : ℕ → ℕ → Buffer A → Buffer A → Option (Buffer A)
  unfolding construct destroy
  transfer i zero old new = some new
  transfer i (suc k) old new = elim (old.cells i) [
    | none ↦ none
    | some x ↦ elim (construct i x new) [
      | none ↦ none
      | some new' ↦ transfer (suc i) k (destroy i old) new'
    ]
  ]

-- The capacity that `ensure_size` asks for; `uptr` arithmetic wraps.
unfoldable pub new_cap : ℕ → ℕ → ℕ
new_cap cap0 required =
    let grown = cap0 * 5 % 2 ^ 64 / 4 in
    let cap = if ltb grown 16 then 16 else grown in if ltb cap required then required else cap
