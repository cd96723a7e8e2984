-- ===== src/Containers/HashMap/Tests.antt =====
-- Maps at concrete inputs.
use otf_cpt.Common.{ℕ, ◌≡◌, refl, none, some, true, false, List, [], ◌∷◌, ◌*◌}
use otf_cpt.Containers.HashMap.{Item, slot, hash, new_map}
use otf_cpt.Containers.HashMap.Calls.{
  Call, call_insert, call_assign, call_find, list_call, run, list_run,
}
use otf_cpt.Containers.HashMap.Entries.{lookup, replace}
use otf_cpt.Containers.HashMap.Refine.{new_map-Agrees, Agrees}

-- The slots of 5 and 36 are the same in a map of capacity 16.
abbrev raw : ℕ → Item ℕ
raw i = record { first = 7 * i; second = 9; next = some 3 }

abbrev calls : List (Call ℕ)
calls =
    call_find 5
    ∷ call_insert 5 50
    ∷ call_insert 36 60
    ∷ call_insert 5 70
    ∷ call_assign 5 80
    ∷ call_assign 4 40
    ∷ call_find 5
    ∷ call_find 36
    ∷ call_find 4
    ∷ call_find 68
    ∷ []

-- What the calls answer.
run_answers :
    (run raw 0 calls (new_map raw))
    ≡ some (
      (none, false)
          ∷ (some 50, true)
          ∷ (some 60, true)
          ∷ (some 50, false)
          ∷ (none, false)
          ∷ (none, false)
          ∷ (some 80, false)
          ∷ (some 60, false)
          ∷ (some 40, false)
          ∷ (none, false)
          ∷ [],
      (new_map-Agrees raw 0 calls).map,
    )
unfolding run list_run list_call lookup replace
run_answers = (new_map-Agrees raw 0 calls).returns

same_slot : slot 31 5 ≡ slot 31 36
unfolding slot hash
same_slot = refl

new_map-Agrees_example : Agrees (run raw 0 calls (new_map raw)) (list_run calls [])
new_map-Agrees_example = new_map-Agrees raw 0 calls
