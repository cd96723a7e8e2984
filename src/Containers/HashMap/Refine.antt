-- ===== src/Containers/HashMap/Refine.antt =====
-- The methods of a map, beside the same calls on a list of pairs.
use otf_cpt.Common.{
  ℕ, ◌-◌, ◌<◌, ◌≡◌, ◌≢◌, refl, ◌∙◌, subst, Option, none, some, true, false, List, [], ◌∷◌, arith,
  ltb, ◌-◌,
}
use otf_cpt.Containers.HashMap.{
  Item, HashMap, new_map, find_item, find, insert, locate, assign_at, add_item, new_item,
}
use otf_cpt.Containers.HashMap.Growth.{IsValid, new_map-IsValid}
use otf_cpt.Containers.HashMap.Entries.{
  entries, entries_below, Found, missing, present, search-Found, find_item-search, entries-last,
}
use otf_cpt.Containers.HashMap.Calls.{
  Call, call_insert, call_assign, call_find, call_reset, call, list_call, run, list_run,
}
use otf_cpt.Containers.HashMap.Extend.{Extended, add_item-Extended, assign_at-IsValid}

module _ {V : Type 0} where
  -- A call does on the map what it does on the list, and leaves a map that is valid.
  pub record Agrees {A : Type 0} (result : Option (A × HashMap V)) (l : A × List (ℕ × V))
      : Type 0 where
    pub map : HashMap V
    pub returns : result ≡ some (l.0, map)
    pub valid : IsValid map
    pub pairs : entries map ≡ l.1

  pub insert-known :
      (m : HashMap V) (key i : ℕ) (value : V)
      → find_item m key ≡ some (some i)
      → insert (key, value) m ≡ some ((i, false), m)
  unfolding insert
  insert-known m key i value e = rw (insert, e) refl

  record New (key : ℕ) (value : V) (m : HashMap V) : Type 0 where
    inserts : insert (key, value) m ≡ some ((m.size, true), add_item (new_item key value) m)
    locates : locate value key m ≡ some (m.size, add_item (new_item key value) m)
    extended : Extended key value m (add_item (new_item key value) m)

  find-New :
      (m : HashMap V) (key : ℕ) (value : V)
      → IsValid m
      → find_item m key ≡ some none
      → ((j : ℕ) → j < m.size → (m.items j).first ≢ key)
      → New key value m
  unfolding insert locate new_item
  find-New m key value v e others =
      let x = add_item-Extended (new_item key value) m v others in
      let back : (add_item (new_item key value) m).size - 1 ≡ m.size = omega (arith, x.size) in
      record {
        inserts = rw (insert, e, back) refl;
        locates = rw (locate, e, back) refl;
        extended = x;
      }

  locate-known :
      (m : HashMap V) (key i : ℕ) (value : V)
      → find_item m key ≡ some (some i)
      → locate value key m ≡ some (i, m)
  unfolding locate
  locate-known m key i value e = rw (locate, e) refl

  assign-last :
      (m m' : HashMap V) (key : ℕ) (initial value : V)
      → Extended key initial m m'
      → entries (assign_at m.size value m') ≡ (key, value) ∷ entries m
  unfolding entries assign_at
  assign-last m m' key initial value x =
      rw x.size (entries-last m.size m'.items value ∙ rw (x.key_read, x.below) refl)

  module _ (raw : ℕ → Item V) (initial : V) where
    insert-Agrees :
        (m : HashMap V) (key : ℕ) (value : V) (found : Option ℕ)
        → IsValid m
        → find_item m key ≡ some found
        → Found key m.size m.items found
        → Agrees
            (call raw initial (call_insert key value) m)
            (list_call (call_insert key value) (entries m))
    unfolding call list_call entries
    insert-Agrees m key value none v e (missing unknown others) =
        let x = find-New m key value v e others in
        rw (call, x.inserts, list_call, unknown)
          (record {
            map = add_item (new_item key value) m;
            returns = rw (x.extended.read) refl;
            valid = x.extended.valid;
            pairs = x.extended.pairs;
          })
    insert-Agrees m key value (some i) v e (present i' lt first known written) =
        rw (call, insert-known m key i value e, list_call, known)
          (record { map = m; returns = refl; valid = v; pairs = refl })

    assign-Agrees :
        (m : HashMap V) (key : ℕ) (value : V) (found : Option ℕ)
        → IsValid m
        → find_item m key ≡ some found
        → Found key m.size m.items found
        → Agrees
            (call raw initial (call_assign key value) m)
            (list_call (call_assign key value) (entries m))
    unfolding call list_call entries assign_at
    assign-Agrees m key value none v e (missing unknown others) =
        let x = find-New m key initial v e others in
        let m' = add_item (new_item key initial) m in
        rw (call, x.locates, list_call, unknown)
          (record {
            map = assign_at m.size value m';
            returns = refl;
            valid = assign_at-IsValid m' m.size value x.extended.valid;
            pairs = assign-last m m' key initial value x.extended;
          })
    assign-Agrees m key value (some i) v e (present i' lt first known written) =
        rw (call, locate-known m key i initial e, list_call, known)
          (record {
            map = assign_at i value m;
            returns = refl;
            valid = assign_at-IsValid m i value v;
            pairs = written value;
          })

    find-Agrees :
        (m : HashMap V) (key : ℕ) (found : Option ℕ)
        → IsValid m
        → find_item m key ≡ some found
        → Found key m.size m.items found
        → Agrees (call raw initial (call_find key) m) (list_call (call_find key) (entries m))
    unfolding call list_call entries find
    find-Agrees m key none v e (missing unknown others) =
        let end : ltb m.size m.size ≡ false = ground arith in
        rw (call, find, e, list_call, unknown, end)
          (record { map = m; returns = refl; valid = v; pairs = refl })
    find-Agrees m key (some i) v e (present i' lt first known written) =
        let inside : ltb i m.size ≡ true = ground (arith, lt) in
        rw (call, find, e, list_call, known, inside)
          (record { map = m; returns = refl; valid = v; pairs = refl })

    call-Agrees :
        (c : Call V) (m : HashMap V)
        → IsValid m
        → Agrees (call raw initial c m) (list_call c (entries m))
    unfolding call list_call entries entries_below new_map
    call-Agrees (call_insert key value) m v =
        insert-Agrees m key value _ v (find_item-search m key v) (search-Found key m.size m.items)
    call-Agrees (call_assign key value) m v =
        assign-Agrees m key value _ v (find_item-search m key v) (search-Found key m.size m.items)
    call-Agrees (call_find key) m v =
        find-Agrees m key _ v (find_item-search m key v) (search-Found key m.size m.items)
    call-Agrees call_reset m v = record {
      map = new_map raw;
      returns = refl;
      valid = new_map-IsValid raw;
      pairs = refl;
    }

  run-Agrees :
      (raw : ℕ → Item V) (initial : V) (calls : List (Call V)) (m : HashMap V)
      → IsValid m
      → Agrees (run raw initial calls m) (list_run calls (entries m))
  unfolding run list_run
  run-Agrees raw initial [] m v = record { map = m; returns = refl; valid = v; pairs = refl }
  run-Agrees raw initial (c ∷ r) m v =
      let first = call-Agrees raw initial c m v in
      let rest : Agrees (run raw initial r first.map) (list_run r (list_call c (entries m)).1) =
        subst (λ l. Agrees (run raw initial r first.map) (list_run r l)) first.pairs
          (run-Agrees raw initial r first.map first.valid) in
      rw (run, first.returns, rest.returns)
        (record { map = rest.map; returns = refl; valid = rest.valid; pairs = rest.pairs })

  -- Any sequence of calls on a new map returns, answers as on a list of pairs, of which each key has
  -- one, and leaves a valid map with the pairs of the list: a power of two of slots that is twice a
  -- capacity of 16 times a power of two, not below the size, or no memory and no item.
  pub new_map-Agrees :
      (raw : ℕ → Item V) (initial : V) (calls : List (Call V))
      → Agrees (run raw initial calls (new_map raw)) (list_run calls [])
  unfolding new_map entries entries_below
  new_map-Agrees raw initial calls =
      run-Agrees raw initial calls (new_map raw) (new_map-IsValid raw)
