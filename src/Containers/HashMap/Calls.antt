-- ===== src/Containers/HashMap/Calls.antt =====
-- Sequences of calls of a map's methods, and the same calls on a list of pairs.
use otf_cpt.Common.{ℕ, Option, none, some, Bool, true, false, List, [], ◌∷◌, if◌then◌else◌, ltb}
use otf_cpt.Containers.HashMap.{Item, HashMap, new_map, find, insert, locate, assign_at}
use otf_cpt.Containers.HashMap.Entries.{lookup, replace}

pub data Call (V : Type 0) : Type 0 where
  call_insert : ℕ → V → Call V
  call_assign : ℕ → V → Call V  -- `map[key] = value`
  call_find : ℕ → Call V
  call_reset : Call V

module _ {V : Type 0} where
  -- What a caller reads: the value under the iterator, if it is not the end, and the flag of `insert`.
  unfoldable pub answer_at : HashMap V → ℕ → Bool → Option V × Bool
  answer_at m i inserted = (some (m.items i).second, inserted)

  module _ (raw : ℕ → Item V) (initial : V) where
    unfoldable pub call : Call V → HashMap V → Option ((Option V × Bool) × HashMap V)
    call (call_insert key value) m = elim (insert (key, value) m) [
      | none ↦ none
      | some ((i, inserted), m') ↦ some ((some (m'.items i).second, inserted), m')
    ]
    call (call_assign key value) m = elim (locate initial key m) [
      | none ↦ none
      | some (i, m') ↦ some ((none, false), assign_at i value m')
    ]
    call (call_find key) m = elim (find m key) [
      | none ↦ none
      | some i ↦ some ((if ltb i m.size then some (m.items i).second else none, false), m)
    ]
    call call_reset m = some ((none, false), new_map raw)

    -- The answers of a sequence of calls, and the map in the end.
    unfoldable pub run : List (Call V) → HashMap V → Option (List (Option V × Bool) × HashMap V)
    run [] m = some ([], m)
    run (c ∷ r) m = elim (call c m) [
      | none ↦ none
      | some (answer, m') ↦ elim (run r m') [
        | none ↦ none
        | some (answers, end) ↦ some (answer ∷ answers, end)
      ]
    ]

  -- The same calls on a list of pairs, newest first.
  unfoldable pub list_call : Call V → List (ℕ × V) → (Option V × Bool) × List (ℕ × V)
  list_call (call_insert key value) l = elim (lookup key l) [
    | none ↦ ((some value, true), (key, value) ∷ l)
    | some old ↦ ((some old, false), l)
  ]
  list_call (call_assign key value) l = elim (lookup key l) [
    | none ↦ ((none, false), (key, value) ∷ l)
    | some _ ↦ ((none, false), replace key value l)
  ]
  list_call (call_find key) l = ((lookup key l, false), l)
  list_call call_reset l = ((none, false), [])

  unfoldable pub list_run : List (Call V) → List (ℕ × V) → List (Option V × Bool) × List (ℕ × V)
  list_run [] l = ([], l)
  list_run (c ∷ r) l =
      let (answer, l') = list_call c l in
      let (answers, end) = list_run r l' in (answer ∷ answers, end)
