-- ===== src/Containers/HashMap.antt =====
-- include/containers/CompactHashMap.h and Hash.h: items in an array in the order of insertion, and
-- behind it an array of the heads of chains that run through the items. A pointer to an item is its
-- index, and `end_` is the index `size`; `begin_` is null while the capacity is 0. Keys are words of 64
-- bits. What stands in raw memory is of no account. `none` is a chain that does not end within `size`
-- items. Memory is not exhausted, and sizes stay far below the range of a word.
mod Calls
mod Chains
mod Entries
mod Extend
mod Growth
mod Refine
mod Tests
use otf_cpt.Common.{
  ℕ, zero, suc, ◌+◌, ◌-◌, ◌*◌, ◌/◌, ◌%◌, ◌^◌, Bool, true, false, Option, none, some, update, ◌==◌,
  leb, ltb, if◌then◌else◌,
}

-- `Hash<K>`
unfoldable pub hash : ℕ → ℕ
hash key = (key + key / 2 ^ 5) % 2 ^ 64

-- `Pair` and `PairListItem`
pub record Item (V : Type 0) : Type 0 where
  pub first : ℕ
  pub second : V
  pub next : Option ℕ

pub record HashMap (V : Type 0) : Type 0 where
  pub items : ℕ → Item V
  pub size : ℕ
  pub cap : ℕ
  pub mask : ℕ
  pub heads : ℕ → Option ℕ

-- `h & mask_`, for a mask of ones
unfoldable pub slot : ℕ → ℕ → ℕ
slot mask key = hash key % suc mask

-- `while (cap < Size) cap *= 2;`, for at most `fuel` rounds
unfoldable pub double : ℕ → ℕ → ℕ → ℕ
double zero need room = room
double (suc fuel) need room =
    let rest = double fuel need (room * 2) in if ltb room need then rest else room

-- The capacity that `ReHash` allocates. Doubling reaches `need` within `need` rounds.
unfoldable pub next_cap : ℕ → ℕ → ℕ
next_cap need room = double need need (if room * 2 == 0 then 16 else room * 2)

module _ {V : Type 0} where
  -- `CompactHashMap()`, and what `reset` leaves: `empty` is what the raw memory reads as.
  unfoldable pub new_map : (ℕ → Item V) → HashMap V
  new_map raw = record { items = raw; size = 0; cap = 0; mask = 0; heads = λ s. none }

  -- `do { if (it->first == key) return it; } while ((it = it->Next));`
  unfoldable pub chase : ℕ → ℕ → (ℕ → Item V) → Option ℕ → Option (Option ℕ)
  chase fuel key items none = some none
  chase zero key items (some i) = none
  chase (suc fuel) key items (some i) =
      let rest = chase fuel key items (items i).next in
      if (items i).first == key then some (some i) else rest

  -- The first lines of `operator[]`, `find` and `insert`: the item with the key.
  unfoldable pub find_item : HashMap V → ℕ → Option (Option ℕ)
  find_item m key =
      if m.mask == 0 then some none else chase m.size key m.items (m.heads (slot m.mask key))

  -- The iterator that `find` returns.
  unfoldable pub find : HashMap V → ℕ → Option ℕ
  find m key = elim (find_item m key) [
    | none ↦ none
    | some none ↦ some m.size
    | some (some i) ↦ some i
  ]

  -- `it->Next = hbegin()[h & mask_]; hbegin()[h & mask_] = it;` in the two arrays
  unfoldable pub link : ℕ → ℕ → (ℕ → Item V) × (ℕ → Option ℕ) → (ℕ → Item V) × (ℕ → Option ℕ)
  link mask i (items, heads) =
      let s = slot mask (items i).first in
      (update items i (record (items i) { next = heads s }), update heads s (some i))

  -- The loop of `ReHash` over the first `n` items.
  unfoldable pub relink : ℕ → ℕ → (ℕ → Item V) × (ℕ → Option ℕ) → (ℕ → Item V) × (ℕ → Option ℕ)
  unfolding link
  relink zero mask arrays = arrays
  relink (suc n) mask arrays = link mask n (relink n mask arrays)

  unfoldable pub grow : ℕ → HashMap V → HashMap V
  grow need m =
      let room = next_cap need m.cap in
      let moved = if m.cap == 0 then 0 else m.size in
      let arrays = relink moved (room * 2 - 1) (m.items, λ s. none) in
      record { items = arrays.0; size = need; cap = room; mask = room * 2 - 1; heads = arrays.1 }

  unfoldable pub rehash : ℕ → HashMap V → Bool × HashMap V
  rehash need m =
      if leb need m.size
      then (false, m)
      else (if leb need m.cap then (false, record m { size = need }) else (true, grow need m))

  -- The last lines of `operator[]` and `insert`, on a map that was grown: `item` is what they construct.
  unfoldable pub place : Item V → HashMap V → HashMap V
  place item m =
      let arrays = link m.mask (m.size - 1) (update m.items (m.size - 1) item, m.heads) in
      record m { items = arrays.0; heads = arrays.1 }

  unfoldable pub add_item : Item V → HashMap V → HashMap V
  add_item item m =
      let (grown, m') = rehash (m.size + 1) m in
      place item (if grown then record m' { mask = m'.cap * 2 - 1 } else m')

  -- `::new (it) I()` with the assignments behind it
  unfoldable pub new_item : ℕ → V → Item V
  new_item key value = record { first = key; second = value; next = none }

  -- The result is the iterator, and whether the pair was inserted.
  unfoldable pub insert : ℕ × V → HashMap V → Option ((ℕ × Bool) × HashMap V)
  insert (key, value) m = elim (find_item m key) [
    | none ↦ none
    | some (some i) ↦ some ((i, false), m)
    | some none ↦ let m' = add_item (new_item key value) m in some ((m'.size - 1, true), m')
  ]

  -- `operator[]`: the result is where the reference points, and `initial` is `V()`.
  unfoldable pub locate : V → ℕ → HashMap V → Option (ℕ × HashMap V)
  locate initial key m = elim (find_item m key) [
    | none ↦ none
    | some (some i) ↦ some (i, m)
    | some none ↦ let m' = add_item (new_item key initial) m in some (m'.size - 1, m')
  ]

  -- A write through the reference, or through an iterator's `second`.
  unfoldable pub assign_at : ℕ → V → HashMap V → HashMap V
  assign_at i value m = record m {
    items = update m.items i (record (m.items i) { second = value });
  }
