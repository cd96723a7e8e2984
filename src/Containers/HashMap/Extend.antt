-- ===== src/Containers/HashMap/Extend.antt =====
-- A map that got a new pair, and a map of which a value was written.
use otf_cpt.Common.{ℕ, suc, ◌<◌, ◌≡◌, ◌≢◌, refl, sym, ap, ◌∙◌, ◌∷◌, arith, ℕ_discrete, update}
use otf_cpt.Containers.HashMap.{Item, HashMap, slot, assign_at, add_item}
use otf_cpt.Containers.HashMap.Chains.{latest, latest-same, update-field}
use otf_cpt.Containers.HashMap.Growth.{IsValid, Added, add_item-Added}
use otf_cpt.Containers.HashMap.Entries.{entries, entries_below, entries-same}

module _ {V : Type 0} where
  pub record Extended (key : ℕ) (value : V) (m m' : HashMap V) : Type 0 where
    pub valid : IsValid m'
    pub pairs : entries m' ≡ (key, value) ∷ entries m
    pub size : m'.size ≡ suc m.size
    pub read : (m'.items m.size).second ≡ value
    pub key_read : (m'.items m.size).first ≡ key
    pub below : entries_below m'.items m.size ≡ entries m

  Added-distinct :
      (item : Item V) (m m' : HashMap V)
      → IsValid m
      → ((j : ℕ) → j < m.size → (m.items j).first ≢ item.first)
      → Added item m.size m.items m'
      → (i j : ℕ) → i < suc m.size
      → j < suc m.size
      → (m'.items i).first ≡ (m'.items j).first
      → i ≡ j
  Added-distinct item m m' v others a i j lt_i lt_j same =
      by_position (ℕ_discrete i m.size) (ℕ_discrete j m.size)
    where
      by_position : Dec (i ≡ m.size) → Dec (j ≡ m.size) → i ≡ j
      by_position (yes e) (yes f) = e ∙ sym f
      by_position (yes e) (no f) = absurd (
          others j (omega arith)
            (sym (a.keys j (omega arith)) ∙ sym same ∙ ap (λ k. (m'.items k).first) e ∙ a.key))
      by_position (no e) (yes f) = absurd (
          others i (omega arith)
            (sym (a.keys i (omega arith)) ∙ same ∙ ap (λ k. (m'.items k).first) f ∙ a.key))
      by_position (no e) (no f) =
          v.distinct i j (omega arith) (omega arith)
            (sym (a.keys i (omega arith)) ∙ same ∙ a.keys j (omega arith))

  pub add_item-Extended :
      (item : Item V) (m : HashMap V)
      → IsValid m
      → ((j : ℕ) → j < m.size → (m.items j).first ≢ item.first)
      → Extended item.first item.second m (add_item item m)
  unfolding entries entries_below
  add_item-Extended item m v others =
      let a = add_item-Added item m v in
      let m' = add_item item m in
      record {
        valid = record {
          room = a.room;
          fits = a.fits;
          chained = rw a.size a.chained;
          distinct = λ i j lt_i lt_j.
              Added-distinct item m m' v others a i j (omega (arith, a.size))
                (omega (arith, a.size));
        };
        pairs =
            rw a.size
              (rw (a.key, a.value, entries-same m.size m'.items m.items a.keys a.values) refl);
        size = a.size;
        read = a.value;
        key_read = a.key;
        below = entries-same m.size m'.items m.items a.keys a.values;
      }

  pub assign_at-IsValid :
      (m : HashMap V) (i : ℕ) (value : V) → IsValid m → IsValid (assign_at i value m)
  unfolding assign_at
  assign_at-IsValid m i value v =
      let new : Item V = record (m.items i) { second = value } in
      let after = update m.items i new in
      let keys : (j : ℕ) → (after j).first ≡ (m.items j).first =
        update-field (λ a. a.first) m.items i new refl in
      let nexts : (j : ℕ) → (after j).next ≡ (m.items j).next =
        update-field (λ a. a.next) m.items i new refl in
      let same : (s n : ℕ) → latest m.mask after s n ≡ latest m.mask m.items s n =
        λ s n. latest-same m.mask s n after m.items (λ k lt. keys k) in
      record {
        room = v.room;
        fits = v.fits;
        chained = record {
          nexts = λ j lt.
              rw (keys j, nexts j, same (slot m.mask (m.items j).first) j) (v.chained.nexts j lt);
          heads_last = λ s. v.chained.heads_last s ∙ sym (same s m.size);
        };
        distinct = λ j k lt_j lt_k e. v.distinct j k lt_j lt_k (sym (keys j) ∙ e ∙ keys k);
      }
