-- ===== src/Containers/Vector/Resize.antt =====
-- resize of a vector refines cutting a list off or filling it up.
use otf_cpt.Common.{
  subst, some-injective, ℕ, zero, suc, ◌-◌, ◌≤◌, ◌<◌, ◌≡◌, refl, sym, ap, ◌∙◌, some, List, [], ◌∷◌,
  ◌++◌, arith, length, take, replicate, lt→ltb, dec_lt, length-append, length-take,
  length-replicate,
}
use otf_cpt.Containers.Vector.Buffer.{Sized, Buffer, construct_range, destroy_range}
use otf_cpt.Containers.Vector.Loops.{construct_range-Writes, destroy_range-Writes}
use otf_cpt.Containers.Vector.Methods.{Vector, reserve, resize}
use otf_cpt.Containers.Vector.Contents.{Fits, Holds, Gives, get_elem?-take}
use otf_cpt.Containers.Vector.Splice.{append-cells, keep-cells}
use otf_cpt.Containers.Vector.Whole.{reserve-Gives}

module _ {A : Type 0} ⦃sized : Sized A⦄ where
  shrink-eq :
      (x : A) (n : ℕ) (v : Vector A) (b : Buffer A)
      → n < v.size
      → destroy_range n (v.size - n) v.buffer ≡ b
      → resize x n v ≡ some (record { buffer = b; size = n })
  unfolding resize
  shrink-eq x n v b p q = rw (lt→ltb n v.size p, q, resize)

  grow-eq :
      (x : A) (n : ℕ) (v w : Vector A) (b : Buffer A)
      → v.size < n
      → reserve n v ≡ some w
      → construct_range w.size (replicate (n - w.size) x) w.buffer ≡ some b
      → resize x n v ≡ some (record { buffer = b; size = n })
  unfolding resize
  grow-eq x n v w b l p q = ground (arith, p, q)

  shrink-Gives :
      (x : A) (n : ℕ) (v : Vector A) (xs : List A)
      → Holds v xs
      → n < v.size
      → Gives v (resize x n v) (take n xs)
  shrink-Gives x n v xs h l =
      let d = destroy_range-Writes n (v.size - n) v.buffer in
      record {
        vector = record { buffer = d.buffer; size = n };
        returned = shrink-eq x n v d.buffer l (some-injective _ _ d.returned);
        holds = record {
          size = omega (arith, length-take n xs, h.size);
          fits = omega (arith, d.cap, h.fits);
          whole = omega (arith, d.cap, d.last, h.whole);
          cells =
              keep-cells n (v.size - n) (take n xs) xs v.buffer d.buffer
                (omega (arith, length-take n xs, h.size)) (omega (arith, h.size))
                (λ j p. sym (get_elem?-take n j xs p)) h.cells d.inside d.outside;
        };
        room = omega (arith, d.cap);
      }

  grow-Gives :
      (x : A) (n : ℕ) (v : Vector A) (xs : List A)
      → Holds v xs
      → Fits sized.size_of n
      → v.size < n
      → Gives v (resize x n v) (xs ++ replicate (n - length xs) x)
  grow-Gives x n v xs h f l =
      let (g, m) = reserve-Gives n v xs h f in
      let w = g.vector in
      let ys = replicate (n - w.size) x in
      let len : length ys ≡ n - w.size = length-replicate (n - w.size) x in
      let c = construct_range-Writes w.size ys w.buffer (omega (arith, g.holds.size, h.size)) in
      record {
        vector = record { buffer = c.buffer; size = n };
        returned = grow-eq x n v w c.buffer l g.returned c.returned;
        holds =
            subst (λ k. Holds (record { buffer = c.buffer; size = n }) (xs ++ replicate (n - k) x))
              g.holds.size
              (record {
                size = omega (arith, length-append xs ys, g.holds.size, h.size);
                fits = omega (arith, c.cap, m);
                whole = omega (arith, c.cap, c.last, g.holds.whole);
                cells =
                    append-cells w.size ys xs w.buffer c.buffer g.holds.size g.holds.cells c.inside
                      c.outside;
              });
        room = omega (arith, c.cap, g.room);
      }

  take_all : (n : ℕ) (xs : List A) → length xs ≤ n → take n xs ≡ xs
  take_all zero [] h = refl
  take_all zero (x ∷ xs) h = absurd (omega arith)
  take_all (suc n) [] h = refl
  take_all (suc n) (x ∷ xs) h = ap {B = List A} (λ r. x ∷ r) (take_all n xs (omega arith))

  append-nil : (xs : List A) → xs ++ [] ≡ xs
  append-nil [] = refl
  append-nil (x ∷ xs) = ap {B = List A} (λ r. x ∷ r) (append-nil xs)

  replicate_none : (k : ℕ) (x : A) (xs : List A) → k ≡ 0 → xs ++ replicate k x ≡ xs
  replicate_none k x xs e = ap (λ k. xs ++ replicate k x) e ∙ append-nil xs

  same-Gives :
      (x : A) (n : ℕ) (v : Vector A) (xs : List A)
      → Holds v xs
      → n ≡ v.size
      → Gives v (resize x n v) (xs ++ replicate (n - length xs) x)
  unfolding resize
  same-Gives x n v xs h e = record {
    vector = v;
    returned = ground (arith, e);
    holds = subst (Holds v) (sym (replicate_none (n - length xs) x xs (omega (arith, h.size)))) h;
    room = omega arith;
  }

  -- resize cuts the list off or fills it up.
  pub resize-Gives :
      (x : A) (n : ℕ) (v : Vector A) (xs : List A)
      → Holds v xs
      → Fits sized.size_of n
      → Gives v (resize x n v) (take n xs ++ replicate (n - length xs) x)
  resize-Gives x n v xs h f = elim (dec_lt n v.size) [
    | yes p ↦
        subst (Gives v (resize x n v))
          (sym (replicate_none (n - length xs) x (take n xs) (omega (arith, h.size))))
          (shrink-Gives x n v xs h p)
    | no p ↦
        subst (λ ys. Gives v (resize x n v) (ys ++ replicate (n - length xs) x))
          (sym (take_all n xs (omega (arith, h.size))))
          (elim (dec_lt v.size n) [
            | yes q ↦ grow-Gives x n v xs h f q
            | no q ↦ same-Gives x n v xs h (omega arith)
          ])
  ]
