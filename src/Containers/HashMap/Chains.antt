-- ===== src/Containers/HashMap/Chains.antt =====
-- What the chains of a map should be, and a search through all items in place of a chain.
use otf_cpt.Common.{
  ℕ, zero, suc, ◌≤◌, ◌<◌, ◌≡◌, refl, ap, ◌∙◌, subst, Option, none, some, ◌==◌, if◌then◌else◌,
  update, arith, Bool-cases, inl, inr, ==_iff, update-Each, update_self, update-ne, ℕ_discrete,
}
use otf_cpt.Containers.HashMap.{Item, slot, chase, link, relink}

module _ {V : Type 0} where
  -- The last of the first `n` items that has its key in the slot: the head of a chain.
  unfoldable pub latest : ℕ → (ℕ → Item V) → ℕ → ℕ → Option ℕ
  latest mask items s zero = none
  latest mask items s (suc n) =
      if slot mask (items n).first == s then some n else latest mask items s n

  -- The last of the first `n` items that has the key.
  unfoldable pub search : ℕ → (ℕ → Item V) → ℕ → Option ℕ
  search key items zero = none
  search key items (suc n) = if (items n).first == key then some n else search key items n

  -- The chains of the first `n` items are complete, newest first.
  pub record AreChained (mask n : ℕ) (items : ℕ → Item V) (heads : ℕ → Option ℕ) : Type 0 where
    pub nexts : (i : ℕ) → i < n → (items i).next ≡ latest mask items (slot mask (items i).first) i
    pub heads_last : (s : ℕ) → heads s ≡ latest mask items s n

  pub chase-search :
      (mask key : ℕ) (items : ℕ → Item V) (n fuel : ℕ)
      → n ≤ fuel
      → ((i : ℕ) → i < n → (items i).next ≡ latest mask items (slot mask (items i).first) i)
      → chase fuel key items (latest mask items (slot mask key) n) ≡ some (search key items n)
  unfolding chase latest search
  chase-search mask key items zero fuel le nexts = refl
  chase-search mask key items (suc n) zero le nexts = absurd (omega arith)
  chase-search mask key items (suc n) (suc fuel) le nexts =
      elim (Bool-cases (slot mask (items n).first == slot mask key)) [
        | inl e ↦
            let same = (==_iff (slot mask (items n).first) (slot mask key)).0 e in
            let next : (items n).next ≡ latest mask items (slot mask key) n =
              nexts n (omega arith) ∙ ap (λ s. latest mask items s n) same in
            let rest =
              chase-search mask key items n fuel (omega arith) (λ i lt. nexts i (omega arith)) in
            rw (e, next) (ground (arith, rest))
        | inr e ↦
            let rest =
              chase-search mask key items n (suc fuel) (omega arith)
                (λ i lt. nexts i (omega arith)) in
            rw e (ground (arith, rest, ap (slot mask)))
      ]

  -- A write that leaves a field of the item.
  pub update-field :
      {A : Type 0} (g : Item V → A) (f : ℕ → Item V) (k : ℕ) (v : Item V)
      → g v ≡ g (f k)
      → (j : ℕ) → g (update f k v j) ≡ g (f j)
  update-field g f k v e = update-Each (λ j a. g a ≡ g (f j)) f k v e (λ j n. refl)

  -- Chains and searches read the keys alone.
  pub latest-same :
      (mask s n : ℕ) (f g : ℕ → Item V)
      → ((j : ℕ) → j < n → (f j).first ≡ (g j).first)
      → latest mask f s n ≡ latest mask g s n
  unfolding latest
  latest-same mask s zero f g h = refl
  latest-same mask s (suc n) f g h =
      let rest = latest-same mask s n f g (λ j lt. h j (omega arith)) in
      rw (h n (omega arith), rest) refl

  pub search-same :
      (key n : ℕ) (f g : ℕ → Item V)
      → ((j : ℕ) → j < n → (f j).first ≡ (g j).first)
      → search key f n ≡ search key g n
  unfolding search
  search-same key zero f g h = refl
  search-same key (suc n) f g h =
      let rest = search-same key n f g (λ j lt. h j (omega arith)) in
      rw (h n (omega arith), rest) refl

  latest-suc :
      (mask : ℕ) (f : ℕ → Item V) (s n : ℕ)
      → latest mask f s (suc n) ≡ (if slot mask (f n).first == s then some n else latest mask f s n)
  unfolding latest
  latest-suc mask f s n = refl

  -- What a loop over the items keeps.
  pub record Linked (mask n : ℕ) (items : ℕ → Item V) (arrays : (ℕ → Item V) × (ℕ → Option ℕ))
      : Type 0 where
    pub firsts : (j : ℕ) → (arrays.0 j).first ≡ (items j).first
    pub seconds : (j : ℕ) → (arrays.0 j).second ≡ (items j).second
    pub chained : AreChained mask n arrays.0 arrays.1

  pub link-Linked :
      (mask n : ℕ) (items : ℕ → Item V) (heads : ℕ → Option ℕ)
      → AreChained mask n items heads
      → Linked mask (suc n) items (link mask n (items, heads))
  unfolding link
  link-Linked mask n items heads c =
      let s = slot mask (items n).first in
      let new = record (items n) { next = heads s } in
      let after = update items n new in
      let keys : (j : ℕ) → (after j).first ≡ (items j).first =
        update-field (λ a. a.first) items n new refl in
      let same : (s j : ℕ) → latest mask after s j ≡ latest mask items s j =
        λ s j. latest-same mask s j after items (λ k lt. keys k) in
      record {
        firsts = keys;
        seconds = update-field (λ a. a.second) items n new refl;
        chained = record {
          nexts = λ j lt. rw (keys j, same (slot mask (items j).first) j) (next_of j lt);
          heads_last = λ q. rw (latest-suc mask after q n, keys n, same q n, c.heads_last q) refl;
        };
      }
    where
      next_of :
          (j : ℕ)
          → j < suc n
          → (update items n (record (items n) { next = heads (slot mask (items n).first) }) j).next
            ≡ latest mask items (slot mask (items j).first) j
      next_of j lt = elim (ℕ_discrete n j) [
        | yes e ↦
            subst
              (λ j.
                (update items n (record (items n) { next = heads (slot mask (items n).first) })
                  j).next
                ≡ latest mask items (slot mask (items j).first) j)
              e
              (ap (λ a. a.next) (update_self items n _) ∙ c.heads_last (slot mask (items n).first))
        | no other ↦ ap (λ a. a.next) (update-ne items n j _ other) ∙ c.nexts j (omega arith)
      ]

  -- `ReHash` builds the chains of all items that it moves.
  pub relink-Linked :
      (mask n : ℕ) (items : ℕ → Item V) → Linked mask n items (relink n mask (items, λ s. none))
  unfolding relink latest
  relink-Linked mask zero items = record {
    firsts = λ j. refl;
    seconds = λ j. refl;
    chained = record { nexts = λ i lt. absurd (omega arith); heads_last = λ s. refl };
  }
  relink-Linked mask (suc n) items =
      let before = relink-Linked mask n items in
      let arrays = relink n mask (items, λ s. none) in
      let after = link-Linked mask n arrays.0 arrays.1 before.chained in
      record {
        firsts = λ j. after.firsts j ∙ before.firsts j;
        seconds = λ j. after.seconds j ∙ before.seconds j;
        chained = after.chained;
      }
