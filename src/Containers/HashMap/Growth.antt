-- ===== src/Containers/HashMap/Growth.antt =====
-- The growth of a map: `ReHash` and the end of `insert` and `operator[]`.
use otf_cpt.Common.{
  ℕ, zero, suc, ◌+◌, ◌-◌, ◌*◌, ◌^◌, ◌≤◌, ◌<◌, ◌≡◌, refl, sym, ap, ◌∙◌, Option, none, true, false,
  ◌==◌, leb, ltb, if◌then◌else◌, update, arith, Bool-cases, inl, inr, leb→le, update_self,
  update-ne,
}
use otf_cpt.Containers.HashMap.{
  Item, HashMap, slot, new_map, double, relink, next_cap, grow, rehash, place, add_item,
}
use otf_cpt.Containers.HashMap.Chains.{latest, AreChained, link-Linked, relink-Linked, latest-same}

-- Capacities are 16 times a power of two, and the mask has the bits below twice that.
pub data HasRoom : (room mask : ℕ) → Type 0 where
  no_room : {room mask : ℕ} → room ≡ 0 → mask ≡ 0 → HasRoom room mask
  power : {room mask : ℕ} (k : ℕ) → room ≡ 16 * 2 ^ k → mask ≡ room * 2 - 1 → HasRoom room mask

twice : (k : ℕ) → 16 * 2 ^ k * 2 ≡ 16 * 2 ^ suc k
twice k = grind arith

pub positive : (k : ℕ) → 0 < 2 ^ k
positive zero = omega arith
positive (suc k) = grind (arith, positive k)

record Doubled (need result : ℕ) : Type 0 where
  exponent : ℕ
  shape : result ≡ 16 * 2 ^ exponent
  enough : need ≤ result

double-Doubled :
    (fuel need room k : ℕ)
    → room ≡ 16 * 2 ^ k
    → need ≤ room + fuel
    → Doubled need (double fuel need room)
unfolding double
double-Doubled zero need room k e h = record { exponent = k; shape = e; enough = omega arith }
double-Doubled (suc fuel) need room k e h = elim (Bool-cases (ltb room need)) [
  | inr no_more ↦ rw no_more (record { exponent = k; shape = e; enough = ground arith })
  | inl more ↦
      let again =
        double-Doubled fuel need (room * 2) (suc k) (ap (λ (r : ℕ). r * 2) e ∙ twice k)
          (omega (arith, positive k, e)) in
      rw more (record { exponent = again.exponent; shape = again.shape; enough = again.enough })
]

next_cap-Doubled :
    {mask : ℕ} (need room : ℕ) → HasRoom room mask → Doubled need (next_cap need room)
unfolding next_cap
next_cap-Doubled need room (no_room e _) =
    let zero_room : (room * 2 == 0) ≡ true = ground (arith, e) in
    rw zero_room (double-Doubled need need 16 0 refl (omega arith))
next_cap-Doubled need room (power k e _) =
    let some_room = positive k in
    let nonzero : (room * 2 == 0) ≡ false = ground (arith, some_room, e) in
    rw nonzero (
      double-Doubled need need (room * 2) (suc k) (ap (λ (r : ℕ). r * 2) e ∙ twice k) (omega arith))

module _ {V : Type 0} where
  pub record IsValid (m : HashMap V) : Type 0 where
    pub room : HasRoom m.cap m.mask
    pub fits : m.size ≤ m.cap
    pub chained : AreChained m.mask m.size m.items m.heads
    pub distinct :
        (i j : ℕ) → i < m.size → j < m.size → (m.items i).first ≡ (m.items j).first → i ≡ j

  pub new_map-IsValid : (raw : ℕ → Item V) → IsValid (new_map raw)
  unfolding new_map latest
  new_map-IsValid raw = record {
    room = no_room refl refl;
    fits = omega arith;
    chained = record { nexts = λ i lt. absurd (omega arith); heads_last = λ s. refl };
    distinct = λ i j h k e. absurd (omega arith);
  }

  -- The item stands behind the others, which are as they were.
  pub record Added (item : Item V) (n : ℕ) (items : ℕ → Item V) (m' : HashMap V) : Type 0 where
    pub size : m'.size ≡ suc n
    pub room : HasRoom m'.cap m'.mask
    pub fits : m'.size ≤ m'.cap
    pub chained : AreChained m'.mask (suc n) m'.items m'.heads
    pub key : (m'.items n).first ≡ item.first
    pub value : (m'.items n).second ≡ item.second
    pub keys : (j : ℕ) → j < n → (m'.items j).first ≡ (items j).first
    pub values : (j : ℕ) → j < n → (m'.items j).second ≡ (items j).second

  below :
      {A : Type 0} (g : Item V → A) (f : ℕ → Item V) (n : ℕ) (v : Item V) (j : ℕ)
      → j < n
      → g (update f n v j) ≡ g (f j)
  below g f n v j lt = ap g (update-ne f n j v (λ e. absurd (omega arith)))

  raw-AreChained :
      (mask n : ℕ) (items : ℕ → Item V) (heads : ℕ → Option ℕ) (item : Item V)
      → AreChained mask n items heads
      → AreChained mask n (update items n item) heads
  raw-AreChained mask n items heads item c =
      let same : (s j : ℕ) → j ≤ n → latest mask (update items n item) s j ≡ latest mask items s j =
        λ s j le.
          latest-same mask s j (update items n item) items
            (λ k lt. below (λ a. a.first) items n item k (omega arith)) in
      record {
        nexts = λ j lt.
            below (λ a. a.next) items n item j lt
            ∙ c.nexts j lt
            ∙ sym (
                ap (λ q. latest mask (update items n item) (slot mask q) j)
                  (below (λ a. a.first) items n item j lt)
                ∙ same (slot mask (items j).first) j (omega arith));
        heads_last = λ s. c.heads_last s ∙ sym (same s n (omega arith));
      }

  place-Added :
      (item : Item V) (n : ℕ) (m : HashMap V)
      → m.size ≡ suc n
      → HasRoom m.cap m.mask
      → m.size ≤ m.cap
      → AreChained m.mask n m.items m.heads
      → Added item n m.items (place item m)
  unfolding place
  place-Added item n m e room fits c =
      let at_n : m.size - 1 ≡ n = omega arith in
      let l =
        link-Linked m.mask n (update m.items n item) m.heads
          (raw-AreChained m.mask n m.items m.heads item c) in
      rw at_n (record {
        size = e;
        room = room;
        fits = fits;
        chained = l.chained;
        key = l.firsts n ∙ ap (λ a. a.first) (update_self m.items n item);
        value = l.seconds n ∙ ap (λ a. a.second) (update_self m.items n item);
        keys = λ j lt. l.firsts j ∙ below (λ a. a.first) m.items n item j lt;
        values = λ j lt. l.seconds j ∙ below (λ a. a.second) m.items n item j lt;
      })

  -- A map that is moved into a larger memory has the same chains.
  grown-Added :
      (item : Item V) (m : HashMap V)
      → IsValid m
      → Added item m.size m.items (place item (grow (suc m.size) m))
  unfolding grow
  grown-Added item m v =
      let room = next_cap (suc m.size) m.cap in
      let d = next_cap-Doubled (suc m.size) m.cap v.room in
      let moved : (if m.cap == 0 then 0 else m.size) ≡ m.size = ground (arith, v.fits) in
      let l = relink-Linked (room * 2 - 1) m.size m.items in
      let arrays = relink m.size (room * 2 - 1) (m.items, λ s. none) in
      let a =
        place-Added item m.size
          (record {
            items = arrays.0;
            size = suc m.size;
            cap = room;
            mask = room * 2 - 1;
            heads = arrays.1;
          })
          refl (power d.exponent d.shape refl) d.enough l.chained in
      rw moved (record {
        size = a.size;
        room = a.room;
        fits = a.fits;
        chained = a.chained;
        key = a.key;
        value = a.value;
        keys = λ j lt. a.keys j lt ∙ l.firsts j;
        values = λ j lt. a.values j lt ∙ l.seconds j;
      })

  -- The callers set the mask that `ReHash` has set.
  grow-mask :
      (need : ℕ) (m : HashMap V)
      → record (grow need m) { mask = (grow need m).cap * 2 - 1 } ≡ grow need m
  unfolding grow
  grow-mask need m = refl

  add_item-grow :
      (item : Item V) (m : HashMap V)
      → leb (m.size + 1) m.cap ≡ false
      → add_item item m ≡ place item (grow (suc m.size) m)
  unfolding add_item rehash
  add_item-grow item m e =
      let more : leb (m.size + 1) m.size ≡ false = ground arith in
      let one : m.size + 1 ≡ suc m.size = omega arith in
      rw (more, e)
        (ap (place item) (grow-mask (m.size + 1) m) ∙ ap (λ n. place item (grow n m)) one)

  add_item-fits :
      (item : Item V) (m : HashMap V)
      → leb (m.size + 1) m.cap ≡ true
      → add_item item m ≡ place item (record m { size = suc m.size })
  unfolding add_item rehash
  add_item-fits item m e =
      let more : leb (m.size + 1) m.size ≡ false = ground arith in
      let one : m.size + 1 ≡ suc m.size = omega arith in
      rw (more, e) (ap (λ n. place item (record m { size = n })) one)

  pub add_item-Added :
      (item : Item V) (m : HashMap V) → IsValid m → Added item m.size m.items (add_item item m)
  add_item-Added item m v = elim (Bool-cases (leb (m.size + 1) m.cap)) [
    | inl e ↦ rw (add_item-fits item m e) (
        place-Added item m.size (record m { size = suc m.size }) refl v.room
          (omega (arith, leb→le (m.size + 1) m.cap e)) v.chained)
    | inr e ↦ rw (add_item-grow item m e) (grown-Added item m v)
  ]
