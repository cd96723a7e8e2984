-- ===== src/Containers/Vector/Single.antt =====
-- The methods of a vector on one element refine those of a list: push_back, insert, pop_back, back
-- and operator[].
use otf_cpt.Common.{
  subst, ℕ, ◌+◌, ◌-◌, ◌≤◌, ◌<◌, ◌≡◌, refl, sym, ap, ◌∙◌, inl, inr, some, List, [], ◌∷◌, ◌++◌, arith,
  length, get_elem?, take, ◌==◌, Bool-cases, false, if◌then◌else◌, length-append, length-take,
}
use otf_cpt.Containers.Vector.Buffer.{Sized, Buffer, construct, assign_to, destroy, shift_up}
use otf_cpt.Containers.Vector.Loops.{
  construct-Writes, assign_to-Writes, destroy_range-Writes, shift_up-Writes,
}
use otf_cpt.Containers.Vector.Methods.{
  Vector, capacity, ensure_size, push_back, pop_back, get_back, at, insert,
}
use otf_cpt.Containers.Vector.Contents.{
  Fits, Holds, Gives, get_elem?-some, get_elem?-take, Holds-Filled,
}
use otf_cpt.Containers.Vector.Refine.{insert-cells}
use otf_cpt.Containers.Vector.Room.{room_one}
use otf_cpt.Containers.Vector.Splice.{splice, length-splice, append-cells, keep-cells}

module _ {A : Type 0} ⦃sized : Sized A⦄ where
  push_back-eq :
      (x : A) (v w : Vector A) (b : Buffer A)
      → (if v.size == capacity v then ensure_size (v.size + 1) v else some v) ≡ some w
      → construct w.size x w.buffer ≡ some b
      → push_back x v ≡ some (record { buffer = b; size = w.size + 1 })
  unfolding push_back
  push_back-eq x v w b p q = rw (p, q, push_back)

  -- push_back adds the element at the end.
  pub push_back-Gives :
      (x : A) (v : Vector A) (xs : List A)
      → Holds v xs
      → Fits sized.size_of (length xs + 1)
      → Gives v (push_back x v) (xs ++ x ∷ [])
  push_back-Gives x v xs h f =
      let (g, m) = room_one v xs h f in
      let w = g.vector in
      let c = construct-Writes w.size x w.buffer (omega (arith, g.holds.size)) in
      record {
        vector = record { buffer = c.buffer; size = w.size + 1 };
        returned = push_back-eq x v w c.buffer g.returned c.returned;
        holds = record {
          size = omega (arith, g.holds.size, length-append xs (x ∷ []));
          fits = omega (arith, c.cap, g.holds.size);
          whole = omega (arith, c.cap, c.last, g.holds.whole);
          cells =
              append-cells w.size (x ∷ []) xs w.buffer c.buffer g.holds.size g.holds.cells c.inside
                c.outside;
        };
        room = omega (arith, c.cap, g.room);
      }

  insert_end-eq : (pos : ℕ) (x : A) (v : Vector A) → pos ≡ v.size → insert pos x v ≡ push_back x v
  unfolding insert
  insert_end-eq pos x v e = ground (arith, e)

  insert-eq :
      (pos : ℕ) (x : A) (v w : Vector A) (b b' : Buffer A)
      → (pos == v.size) ≡ false
      → (if v.size == capacity v then ensure_size (v.size + 1) v else some v) ≡ some w
      → shift_up w.size pos 1 (w.size - pos) w.buffer ≡ some b
      → assign_to pos x b ≡ some b'
      → insert pos x v ≡ some (record { buffer = b'; size = w.size + 1 })
  unfolding insert
  insert-eq pos x v w b b' n p q r = rw (n, p, q, r, insert)

  insert_inside-Gives :
      (pos : ℕ) (x : A) (v : Vector A) (xs : List A)
      → Holds v xs
      → Fits sized.size_of (length xs + 1)
      → pos < length xs
      → (pos == v.size) ≡ false
      → Gives v (insert pos x v) (splice pos pos (x ∷ []) xs)
  insert_inside-Gives pos x v xs h f l n =
      let (g, m) = room_one v xs h f in
      let w = g.vector in
      let s =
        shift_up-Writes w.size pos 1 (w.size - pos) w.buffer (Holds-Filled g.holds)
          (omega (arith, g.holds.size)) (omega (arith, g.holds.size)) in
      let (y, e) = get_elem?-some xs pos l in
      let c =
        assign_to-Writes pos x y s.buffer
          (s.outside pos (inl (omega arith)) ∙ (g.holds.cells pos ∙ e)) in
      record {
        vector = record { buffer = c.buffer; size = w.size + 1 };
        returned = insert-eq pos x v w s.buffer c.buffer n g.returned s.returned c.returned;
        holds = record {
          size = omega (arith, g.holds.size, length-splice pos pos (x ∷ []) xs (omega arith));
          fits = omega (arith, c.cap, s.cap, g.holds.size);
          whole = omega (arith, c.cap, c.last, s.cap, s.last, g.holds.whole);
          cells =
              insert-cells pos (x ∷ []) w xs g.holds (omega arith) s c.buffer.cells c.inside
                c.outside;
        };
        room = omega (arith, c.cap, s.cap, g.room);
      }

  splice_end : (x : A) (xs : List A) → splice (length xs) (length xs) (x ∷ []) xs ≡ xs ++ x ∷ []
  splice_end x [] = refl
  splice_end x (y ∷ xs) = rw (splice_end x xs)

  -- Inserting one element inserts it in the list, at the end too.
  pub insert-Gives :
      (pos : ℕ) (x : A) (v : Vector A) (xs : List A)
      → Holds v xs
      → Fits sized.size_of (length xs + 1)
      → pos ≤ length xs
      → Gives v (insert pos x v) (splice pos pos (x ∷ []) xs)
  insert-Gives pos x v xs h f l = elim (Bool-cases (pos == v.size)) [
    | inl e ↦
        let at_end : pos ≡ v.size = ground (arith, e) in
        subst (λ r. Gives v r (splice pos pos (x ∷ []) xs)) (sym (insert_end-eq pos x v at_end))
          (subst (Gives v (push_back x v))
            (sym (ap (λ p. splice p p (x ∷ []) xs) (at_end ∙ h.size) ∙ splice_end x xs))
            (push_back-Gives x v xs h f))
    | inr e ↦ insert_inside-Gives pos x v xs h f (ground (arith, e, h.size)) e
  ]

  -- pop_back removes the last element.
  pub pop_back-Gives :
      (v : Vector A) (xs : List A)
      → Holds v xs
      → 0 < length xs
      → Gives v (pop_back v) (take (length xs - 1) xs)
  unfolding pop_back
  pop_back-Gives v xs h l =
      let d = destroy_range-Writes (v.size - 1) 1 v.buffer in
      record {
        vector = record { buffer = destroy (v.size - 1) v.buffer; size = v.size - 1 };
        returned = ground (arith, h.size);
        holds = record {
          size = omega (arith, h.size, length-take (length xs - 1) xs);
          fits = omega (arith, h.fits);
          whole = omega (arith, h.whole);
          cells =
              keep-cells (v.size - 1) 1 (take (length xs - 1) xs) xs v.buffer
                (destroy (v.size - 1) v.buffer)
                (omega (arith, h.size, length-take (length xs - 1) xs)) (omega (arith, h.size))
                (λ j p. sym (get_elem?-take (length xs - 1) j xs (omega (arith, h.size)))) h.cells
                (ground (arith, d.inside)) (ground (arith, d.outside));
        };
        room = omega arith;
      }

  -- back and operator[] read the list.
  pub get_back-eq :
      (v : Vector A) (xs : List A)
      → Holds v xs
      → 0 < length xs
      → get_back v ≡ get_elem? xs (length xs - 1)
  unfolding get_back
  get_back-eq v xs h l = ground (arith, h.size, h.cells (v.size - 1))

  pub at-eq : (v : Vector A) (xs : List A) (i : ℕ) → Holds v xs → at v i ≡ get_elem? xs i
  unfolding at
  at-eq v xs i h = h.cells i
