-- ===== src/Containers/Vector/Whole.antt =====
-- The methods of a vector that take elements away or set all of them refine those of a list: erase,
-- clear, assign and resize.
use otf_cpt.Common.{
  subst, some-injective, take-append-drop, ℕ, ◌+◌, ◌-◌, ◌≤◌, ◌<◌, ◌≡◌, refl, sym, ap, ◌∙◌, inl, inr,
  Option, none, some, List, [], arith, length, get_elem?, ◌==◌, false, dec_lt,
}
use otf_cpt.Containers.Vector.Buffer.{Sized, Buffer, construct_range, destroy_range, shift_down}
use otf_cpt.Containers.Vector.Loops.{
  Writes, construct_range-Writes, destroy_range-Writes, shift_down-Writes,
}
use otf_cpt.Containers.Vector.Methods.{Vector, clear, reserve, erase, assign}
use otf_cpt.Containers.Vector.Contents.{Fits, Holds, Gives, get_elem?-none, Holds-Filled}
use otf_cpt.Containers.Vector.Room.{room_many}
use otf_cpt.Containers.Vector.Splice.{splice, length-splice, splice-cells, append-cells, keep-cells}

module _ {A : Type 0} ⦃sized : Sized A⦄ where
  erase-eq :
      (first last : ℕ) (v : Vector A) (b : Buffer A)
      → (first == last) ≡ false
      → shift_down first last (v.size - last) v.buffer ≡ some b
      → erase first last v
        ≡ some (record {
          buffer = destroy_range (v.size - (last - first)) (last - first) b;
          size = v.size - (last - first);
        })
  unfolding erase
  erase-eq first last v b p q = rw (p, q, erase)

  -- The cells after the elements from `last` on have moved down and the end was destroyed.
  erase-cells :
      (first last : ℕ) (v : Vector A) (xs : List A)
      → Holds v xs
      → first < last
      → last ≤ length xs
      → {r₁ r₂ : Option (Buffer A)}
      → (s : Writes v.buffer r₁ first (v.size - last) (λ j. v.buffer.cells (last + j)))
      → (d : Writes s.buffer r₂ (v.size - (last - first)) (last - first) (λ _. none)) → (j : ℕ)
      → d.buffer.cells j ≡ get_elem? (splice first last [] xs) j
  erase-cells first last v xs h l m s d =
      splice-cells first last [] xs d.buffer.cells (omega arith)
        (λ j p. d.outside j (inl (omega (arith, h.size))) ∙ (s.outside j (inl p) ∙ h.cells j))
        (λ j p. absurd (omega arith))
        (λ j. ap d.buffer.cells {y = first + j} (omega arith) ∙ after j)
    where
      beyond : (j : ℕ) → ¬ (j < v.size - last) → d.buffer.cells (first + j) ≡ none
      beyond j p = elim (dec_lt (first + j) v.size) [
        | yes q ↦
            ap d.buffer.cells
              {y = v.size - (last - first) + (first + j - (v.size - (last - first)))}
              (omega (arith, h.size))
            ∙ d.inside (first + j - (v.size - (last - first))) (omega (arith, h.size))
        | no q ↦
            d.outside (first + j) (inr (omega (arith, h.size)))
            ∙ (s.outside (first + j) (inr (omega (arith, h.size)))
                ∙ (h.cells (first + j) ∙ get_elem?-none xs (first + j) (omega (arith, h.size))))
      ]

      after : (j : ℕ) → d.buffer.cells (first + j) ≡ get_elem? xs (last + j)
      after j = elim (dec_lt j (v.size - last)) [
        | yes p ↦
            d.outside (first + j) (inl (omega (arith, h.size)))
            ∙ (s.inside j p ∙ h.cells (last + j))
        | no p ↦ beyond j p ∙ sym (get_elem?-none xs (last + j) (omega (arith, h.size)))
      ]

  erase_some-Gives :
      (first last : ℕ) (v : Vector A) (xs : List A)
      → Holds v xs
      → first < last
      → last ≤ length xs
      → Gives v (erase first last v) (splice first last [] xs)
  erase_some-Gives first last v xs h l m =
      let s =
        shift_down-Writes first last (v.size - last) v.buffer
          (λ j p. Holds-Filled h j (omega (arith, h.size))) l in
      let d = destroy_range-Writes (v.size - (last - first)) (last - first) s.buffer in
      record {
        vector = record { buffer = d.buffer; size = v.size - (last - first) };
        returned =
            erase-eq first last v s.buffer (ground arith) s.returned
            ∙ ap (λ b. some (record { buffer = b; size = v.size - (last - first) }))
                (some-injective _ _ d.returned);
        holds = record {
          size = omega (arith, h.size, length-splice first last [] xs (omega arith));
          fits = omega (arith, d.cap, s.cap, h.fits);
          whole = omega (arith, d.cap, d.last, s.cap, s.last, h.whole);
          cells = erase-cells first last v xs h l m s d;
        };
        room = omega (arith, d.cap, s.cap);
      }

  erase_none-Gives :
      (first last : ℕ) (v : Vector A) (xs : List A)
      → Holds v xs
      → first ≡ last
      → Gives v (erase first last v) (splice first last [] xs)
  unfolding erase
  erase_none-Gives first last v xs h e = record {
    vector = v;
    returned = ground (arith, e);
    holds =
        subst (Holds v) (sym (ap (λ k. splice first k [] xs) (sym e) ∙ take-append-drop first xs))
          h;
    room = omega arith;
  }

  -- erase takes the elements from `first` to `last` out of the list.
  pub erase-Gives :
      (first last : ℕ) (v : Vector A) (xs : List A)
      → Holds v xs
      → first ≤ last
      → last ≤ length xs
      → Gives v (erase first last v) (splice first last [] xs)
  erase-Gives first last v xs h l m = elim (dec_lt first last) [
    | yes p ↦ erase_some-Gives first last v xs h p m
    | no p ↦ erase_none-Gives first last v xs h (omega arith)
  ]

  -- clear leaves raw memory, and all the room.
  pub clear-Gives : (v : Vector A) (xs : List A) → Holds v xs → Gives v (some (clear v)) []
  unfolding clear
  clear-Gives v xs h =
      let d = destroy_range-Writes 0 v.size v.buffer in
      record {
        vector = record { buffer = d.buffer; size = 0 };
        returned = ap (λ b. some (record { buffer = b; size = 0 })) (some-injective _ _ d.returned);
        holds = record {
          size = refl;
          fits = omega arith;
          whole = omega (arith, d.cap, d.last, h.whole);
          cells =
              keep-cells 0 v.size [] xs v.buffer d.buffer refl (omega (arith, h.size))
                (λ j p. absurd (omega arith)) h.cells d.inside d.outside;
        };
        room = omega (arith, d.cap);
      }

  pub reserve-Gives :
      (n : ℕ) (v : Vector A) (xs : List A)
      → Holds v xs
      → Fits sized.size_of n
      → (g : Gives v (reserve n v) xs) × (n ≤ g.vector.buffer.cap)
  unfolding reserve
  reserve-Gives n v xs h f = room_many n v xs h f

  assign-eq :
      (xs : List A) (v c w : Vector A) (b : Buffer A)
      → clear v ≡ c
      → reserve (length xs) c ≡ some w
      → construct_range 0 xs w.buffer ≡ some b
      → assign xs v ≡ some (record { buffer = b; size = length xs })
  unfolding assign
  assign-eq xs v c w b o p q =
      ap
        (λ (r : Option (Vector A)). elim r [
          | none ↦ none
          | some w ↦ elim (construct_range 0 xs w.buffer) [
            | none ↦ none
            | some b ↦ some (record { buffer = b; size = length xs })
          ]
        ])
        (ap (reserve (length xs)) o ∙ p)
      ∙ rw q

  -- assign makes the vector hold the given elements, whatever it held.
  pub assign-Gives :
      (ys : List A) (v : Vector A) (xs : List A)
      → Holds v xs
      → Fits sized.size_of (length ys)
      → Gives v (assign ys v) ys
  assign-Gives ys v xs h f =
      let e = clear-Gives v xs h in
      let (g, m) = reserve-Gives (length ys) e.vector [] e.holds f in
      let c = construct_range-Writes 0 ys g.vector.buffer (omega (arith)) in
      record {
        vector = record { buffer = c.buffer; size = length ys };
        returned =
            assign-eq ys v e.vector g.vector c.buffer (some-injective _ _ e.returned) g.returned
              c.returned;
        holds = record {
          size = refl;
          fits = omega (arith, c.cap);
          whole = omega (arith, c.cap, c.last, g.holds.whole);
          cells =
              append-cells 0 ys [] g.vector.buffer c.buffer refl g.holds.cells c.inside c.outside;
        };
        room = omega (arith, c.cap, g.room, e.room);
      }
