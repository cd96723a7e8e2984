-- ===== src/Containers/HashMap/Entries.antt =====
-- The abstract view of a map: the list of its pairs, newest first.
use otf_cpt.Common.{
  ℕ, zero, suc, ◌<◌, ◌≡◌, ◌≢◌, refl, ap, ◌∙◌, Option, none, some, false, List, [], ◌∷◌, ◌==◌,
  if◌then◌else◌, arith, Bool-cases, inl, inr, ==_iff, update, update_self, update-ne, ℕ_discrete,
}
use otf_cpt.Containers.HashMap.{Item, HashMap, slot, find_item}
use otf_cpt.Containers.HashMap.Chains.{search, chase-search}
use otf_cpt.Containers.HashMap.Growth.{no_room, power, IsValid, positive}

module _ {V : Type 0} where
  unfoldable pub entries_below : (ℕ → Item V) → ℕ → List (ℕ × V)
  entries_below items zero = []
  entries_below items (suc n) = ((items n).first, (items n).second) ∷ entries_below items n

  unfoldable pub entries : HashMap V → List (ℕ × V)
  entries m = entries_below m.items m.size

  unfoldable pub lookup : ℕ → List (ℕ × V) → Option V
  lookup key [] = none
  lookup key ((k, v) ∷ r) = if k == key then some v else lookup key r

  -- The value under a key that the list has.
  unfoldable pub replace : ℕ → V → List (ℕ × V) → List (ℕ × V)
  replace key value [] = []
  replace key value ((k, v) ∷ r) =
      let rest = replace key value r in if k == key then (k, value) ∷ r else (k, v) ∷ rest

  pub data Found (key n : ℕ) (items : ℕ → Item V) : Option ℕ → Type 0 where
    missing :
        lookup key (entries_below items n) ≡ none
        → ((j : ℕ) → j < n → (items j).first ≢ key)
        → Found key n items none
    present :
        (i : ℕ)
        → i < n
        → (items i).first ≡ key
        → lookup key (entries_below items n) ≡ some (items i).second
        → ((value : V)
            → entries_below (update items i (record (items i) { second = value })) n
              ≡ replace key value (entries_below items n))
        → Found key n items (some i)

  pub entries-same :
      (n : ℕ) (f g : ℕ → Item V)
      → ((j : ℕ) → j < n → (f j).first ≡ (g j).first)
      → ((j : ℕ) → j < n → (f j).second ≡ (g j).second)
      → entries_below f n ≡ entries_below g n
  unfolding entries_below
  entries-same zero f g h k = refl
  entries-same (suc n) f g h k =
      let rest = entries-same n f g (λ j lt. h j (omega arith)) (λ j lt. k j (omega arith)) in
      rw (h n (omega arith), k n (omega arith), rest) refl

  -- A value that is written at the end of the list, or below it.
  pub entries-last :
      (n : ℕ) (items : ℕ → Item V) (value : V)
      → entries_below (update items n (record (items n) { second = value })) (suc n)
        ≡ ((items n).first, value) ∷ entries_below items n
  unfolding entries_below
  entries-last n items value =
      let new : Item V = record (items n) { second = value } in
      let rest : entries_below (update items n new) n ≡ entries_below items n =
        entries-same n (update items n new) items
          (λ j lt. ap (λ a. a.first) (update-ne items n j new (λ e. absurd (omega arith))))
          (λ j lt. ap (λ a. a.second) (update-ne items n j new (λ e. absurd (omega arith)))) in
      rw (update_self items n new, rest) refl

  further :
      {key : ℕ} (n : ℕ) (items : ℕ → Item V) {found : Option ℕ}
      → ((items n).first == key) ≡ false
      → Found key n items found
      → Found key (suc n) items found
  unfolding lookup entries_below replace
  further {key = key} n items e (missing none_below others) = missing (rw e none_below) (λ j lt.
      elim (ℕ_discrete j n) [
        | yes same ↦ λ at_j. ground (arith, e, same, ap (λ k. (items k).first) same, at_j)
        | no other ↦ others j (omega arith)
      ])
  further {key = key} n items e (present i lt first value written) =
      present i (omega arith) first (rw e value) (λ new.
        let above : update items i (record (items i) { second = new }) n ≡ items n =
          update-ne items i n (record (items i) { second = new }) (λ same. absurd (omega arith)) in
        rw (above, e) (ap (λ r. ((items n).first, (items n).second) ∷ r) (written new)))

  pub search-Found : (key n : ℕ) (items : ℕ → Item V) → Found key n items (search key items n)
  unfolding search lookup entries_below replace
  search-Found key zero items = missing refl (λ j lt. absurd (omega arith))
  search-Found key (suc n) items = elim (Bool-cases ((items n).first == key)) [
    | inl e ↦ rw e (
        present n (omega arith) ((==_iff (items n).first key).0 e) (rw e refl)
          (λ value. entries-last n items value ∙ rw e refl))
    | inr e ↦ rw e (further n items e (search-Found key n items))
  ]

  chained-find :
      (m : HashMap V) (key : ℕ)
      → IsValid m
      → (m.mask == 0) ≡ false
      → find_item m key ≡ some (search key m.items m.size)
  unfolding find_item
  chained-find m key v e =
      rw (e, v.chained.heads_last (slot m.mask key))
        (chase-search m.mask key m.items m.size m.size (omega arith) v.chained.nexts)

  pub find_item-search :
      (m : HashMap V) (key : ℕ) → IsValid m → find_item m key ≡ some (search key m.items m.size)
  unfolding find_item search
  find_item-search m key v = elim v.room [
    | no_room no_cap no_mask ↦
        let no_items : m.size ≡ 0 = omega (arith, v.fits) in rw (no_mask, no_items) refl
    | power k cap mask ↦ chained-find m key v (ground (arith, positive k))
  ]
