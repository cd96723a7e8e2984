-- ===== src/Containers/Vector/Methods.antt =====
-- include/containers/Vector.h: the methods of the class. Iterators are indices; what they return is
-- left out where it is the argument again. An element that is inserted does not stand in the vector
-- itself. A size is a number without a bound; what wraps of a capacity is in Buffer.
use otf_cpt.Common.{
  ℕ, ◌+◌, ◌-◌, Option, none, some, List, [], ◌∷◌, if◌then◌else◌, ltb, leb, ◌==◌, length, min,
  replicate,
}
use otf_cpt.Containers.Vector.Buffer.{
  Buffer, Sized, no_buffer, malloc, construct, assign_to, destroy, destroy_range, shift_up,
  shift_down, construct_range, transfer, new_cap,
}

pub record Vector (A : Type 0) : Type 0 where
  pub buffer : Buffer A
  pub size : ℕ  -- end_ - begin_

module _ {A : Type 0} where
  -- `Vector()` and the state after `reset()`: no buffer.
  unfoldable pub empty : Vector A
  unfolding no_buffer
  empty = record { buffer = no_buffer; size = 0 }

  unfoldable pub capacity : Vector A → ℕ
  capacity v = v.buffer.last

module _ {A : Type 0} ⦃sized : Sized A⦄ where
  unfoldable pub ensure_size : ℕ → Vector A → Option (Vector A)
  unfolding capacity transfer malloc
  ensure_size required v =
      if leb required (capacity v)
      then some v
      else elim (transfer 0 v.size v.buffer (malloc (new_cap (capacity v) required))) [
        | none ↦ none
        | some b ↦ some (record { buffer = b; size = v.size })
      ]

  unfoldable pub clear : Vector A → Vector A
  unfolding destroy_range
  clear v = record { buffer = destroy_range 0 v.size v.buffer; size = 0 }

  unfoldable pub reset : Vector A → Vector A
  unfolding clear empty
  reset v = empty

  unfoldable pub reserve : ℕ → Vector A → Option (Vector A)
  unfolding ensure_size
  reserve n v = if ltb (capacity v) n then ensure_size n v else some v

  unfoldable pub push_back : A → Vector A → Option (Vector A)
  unfolding ensure_size construct
  push_back x v = elim (if v.size == capacity v then ensure_size (v.size + 1) v else some v) [
    | none ↦ none
    | some w ↦ elim (construct w.size x w.buffer) [
      | none ↦ none
      | some b ↦ some (record { buffer = b; size = w.size + 1 })
    ]
  ]

  -- Undefined on an empty vector.
  unfoldable pub pop_back : Vector A → Option (Vector A)
  unfolding destroy
  pop_back v =
      if v.size == 0
      then none
      else some (record { buffer = destroy (v.size - 1) v.buffer; size = v.size - 1 })

  unfoldable pub get_back : Vector A → Option A
  get_back v = if v.size == 0 then none else v.buffer.cells (v.size - 1)

  -- `operator[]`
  unfoldable pub at : Vector A → ℕ → Option A
  at v i = v.buffer.cells i

  -- `insert(pos, item)`
  unfoldable pub insert : ℕ → A → Vector A → Option (Vector A)
  unfolding push_back ensure_size shift_up assign_to
  insert pos item v =
      if pos == v.size
      then push_back item v
      else elim (if v.size == capacity v then ensure_size (v.size + 1) v else some v) [
        | none ↦ none
        | some w ↦ elim (shift_up w.size pos 1 (w.size - pos) w.buffer) [
          | none ↦ none
          | some b ↦ elim (assign_to pos item b) [
            | none ↦ none
            | some b' ↦ some (record { buffer = b'; size = w.size + 1 })
          ]
        ]
      ]

  -- `insert(pos, first, last)`
  unfoldable pub insert_range : ℕ → List A → Vector A → Option (Vector A)
  unfolding ensure_size shift_up destroy_range construct_range
  insert_range pos [] v = some v
  insert_range pos (x ∷ xs) v =
      let items = x ∷ xs in
      let n = length items in
      elim (if ltb (capacity v) (v.size + n) then ensure_size (v.size + n) v else some v) [
        | none ↦ none
        | some w ↦ elim (shift_up w.size pos n (w.size - pos) w.buffer) [
          | none ↦ none
          | some b ↦ elim (construct_range pos items (destroy_range pos (min (w.size - pos) n) b)) [
            | none ↦ none
            | some b' ↦ some (record { buffer = b'; size = w.size + n })
          ]
        ]
      ]

  -- `erase(first, last)`
  unfoldable pub erase : ℕ → ℕ → Vector A → Option (Vector A)
  unfolding shift_down destroy_range
  erase first last v =
      if first == last then some v else elim (shift_down first last (v.size - last) v.buffer) [
        | none ↦ none
        | some b ↦
            let n = last - first in
            some (record { buffer = destroy_range (v.size - n) n b; size = v.size - n })
      ]

  unfoldable pub assign : List A → Vector A → Option (Vector A)
  unfolding clear reserve construct_range
  assign xs v = elim (reserve (length xs) (clear v)) [
    | none ↦ none
    | some w ↦ elim (construct_range 0 xs w.buffer) [
      | none ↦ none
      | some b ↦ some (record { buffer = b; size = length xs })
    ]
  ]

  -- `resize(new_size)`, where `T()` is the default element.
  unfoldable pub resize : A → ℕ → Vector A → Option (Vector A)
  unfolding destroy_range reserve construct_range
  resize default n v =
      if ltb n v.size
      then some (record { buffer = destroy_range n (v.size - n) v.buffer; size = n })
      else if ltb v.size n
      then elim (reserve n v) [
        | none ↦ none
        | some w ↦ elim (construct_range w.size (replicate (n - w.size) default) w.buffer) [
          | none ↦ none
          | some b ↦ some (record { buffer = b; size = n })
        ]
      ]
      else some v
