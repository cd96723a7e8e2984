-- ===== src/Containers/Vector/Refine.antt =====
-- The methods of a vector refine those of a list, and none of them is undefined.
use otf_cpt.Common.{
  subst, some-injective, take-append-drop, ℕ, ◌+◌, ◌-◌, ◌≤◌, ◌<◌, ◌≡◌, refl, sym, ◌∙◌, ◌⊎◌, inl,
  inr, Option, some, List, [], ◌∷◌, arith, length, get_elem?, min, ltb, if◌then◌else◌, dec_lt,
}
use otf_cpt.Containers.Vector.Buffer.{Sized, Buffer, construct_range, destroy_range, shift_up}
use otf_cpt.Containers.Vector.Loops.{
  Writes, construct_range-Writes, destroy_range-Writes, shift_up-Writes,
}
use otf_cpt.Containers.Vector.Methods.{Vector, capacity, ensure_size, insert_range}
use otf_cpt.Containers.Vector.Contents.{Fits, Holds, Gives, get_elem?-none, Holds-Filled}
use otf_cpt.Containers.Vector.Room.{room_many}
use otf_cpt.Containers.Vector.Splice.{splice, length-splice, splice-cells}

module _ {A : Type 0} ⦃sized : Sized A⦄ where
  insert_range-eq :
      (pos : ℕ) (x : A) (ys : List A) (v w : Vector A) (b b₂ b' : Buffer A)
      → (if ltb (capacity v) (v.size + length (x ∷ ys))
          then ensure_size (v.size + length (x ∷ ys)) v
          else some v)
        ≡ some w
      → shift_up w.size pos (length (x ∷ ys)) (w.size - pos) w.buffer ≡ some b
      → destroy_range pos (min (w.size - pos) (length (x ∷ ys))) b ≡ b₂
      → construct_range pos (x ∷ ys) b₂ ≡ some b'
      → insert_range pos (x ∷ ys) v ≡ some (record { buffer = b'; size = w.size + length (x ∷ ys) })
  unfolding insert_range
  insert_range-eq pos x ys v w b b₂ b' p q d r = rw (p, q, d, r, insert_range)

  -- The cells after an insertion: shifted up, and the gap filled.
  pub insert-cells :
      (pos : ℕ) (items : List A) (w : Vector A) (xs : List A)
      → Holds w xs
      → pos ≤ length xs
      → {r : Option (Buffer A)}
      → (s : Writes w.buffer r (pos + length items) (w.size - pos) (λ j. w.buffer.cells (pos + j)))
      → (f : ℕ → Option A) → ((j : ℕ) → j < length items → f (pos + j) ≡ get_elem? items j)
      → ((j : ℕ) → (j < pos) ⊎ (pos + length items ≤ j) → f j ≡ s.buffer.cells j)
      → (j : ℕ) → f j ≡ get_elem? (splice pos pos items xs) j
  insert-cells pos items w xs h l s f inside outside =
      splice-cells pos pos items xs f l
        (λ j p. outside j (inl p) ∙ (s.outside j (inl (omega arith)) ∙ h.cells j)) inside
        (λ j. outside (pos + length items + j) (inr (omega arith)) ∙ after j)
    where
      after : (j : ℕ) → s.buffer.cells (pos + length items + j) ≡ get_elem? xs (pos + j)
      after j = elim (dec_lt j (w.size - pos)) [
        | yes p ↦ s.inside j p ∙ h.cells (pos + j)
        | no p ↦
            s.outside (pos + length items + j) (inr (omega arith))
            ∙ (h.cells (pos + length items + j)
                ∙ (get_elem?-none xs (pos + length items + j) (omega (arith, h.size))
                    ∙ sym (get_elem?-none xs (pos + j) (omega (arith, h.size)))))
      ]

  -- Inserting a list of elements at a position of the vector inserts it in the list that the vector
  -- holds, and nothing on the way is undefined.
  pub insert_range-Gives :
      (pos : ℕ) (items : List A) (v : Vector A) (xs : List A)
      → Holds v xs
      → Fits sized.size_of (length xs + length items)
      → pos ≤ length xs
      → Gives v (insert_range pos items v) (splice pos pos items xs)
  unfolding insert_range
  insert_range-Gives pos [] v xs h f l = record {
    vector = v;
    returned = refl;
    holds = subst (Holds v) (sym (take-append-drop pos xs)) h;
    room = omega arith;
  }
  insert_range-Gives pos (x ∷ ys) v xs h f l =
      let items = x ∷ ys in
      let (g, m) =
        room_many (v.size + length items) v xs h
          (subst (λ n. Fits sized.size_of (n + length items)) (sym h.size) f) in
      let w = g.vector in
      let s =
        shift_up-Writes w.size pos (length items) (w.size - pos) w.buffer (Holds-Filled g.holds)
          (omega (arith, g.holds.size)) (omega (arith, g.holds.size, h.size)) in
      let d = destroy_range-Writes pos (min (w.size - pos) (length items)) s.buffer in
      let c = construct_range-Writes pos items d.buffer (omega (arith, d.cap, s.cap, h.size)) in
      record {
        vector = record { buffer = c.buffer; size = w.size + length items };
        returned =
            insert_range-eq pos x ys v w s.buffer d.buffer c.buffer g.returned s.returned
              (some-injective _ _ d.returned) c.returned;
        holds = record {
          size = omega (arith, g.holds.size, length-splice pos pos items xs l);
          fits = omega (arith, c.cap, d.cap, s.cap, g.holds.size, h.size);
          whole = omega (arith, c.cap, c.last, d.cap, d.last, s.cap, s.last, g.holds.whole);
          cells =
              insert-cells pos items w xs g.holds l s c.buffer.cells c.inside
                (λ j o. c.outside j o ∙ d.outside j (ground (arith, o)));
        };
        room = omega (arith, c.cap, d.cap, s.cap, g.room);
      }
