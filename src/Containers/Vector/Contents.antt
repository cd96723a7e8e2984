-- ===== src/Containers/Vector/Contents.antt =====
-- The methods of a vector refine those of a list, and none of them is undefined.
use otf_cpt.Common.{
  ℕ, zero, suc, ◌+◌, ◌*◌, ◌/◌, ◌%◌, ◌^◌, ◌≤◌, ◌<◌, ◌≡◌, refl, sym, ap, ◌∙◌, inl, inr, Option, none,
  some, List, [], ◌∷◌, ◌++◌, arith, length, get_elem?, take, drop, leb, leb→le, Bool-cases, dec_lt,
}
use native.Mathlib.Nat.{mul-le-mul_right, mul-div_cancel, mod-eq_of_lt}
use otf_cpt.Containers.Vector.Buffer.{Buffer, Sized, malloc, new_cap}
use otf_cpt.Containers.Vector.Loops.{Writes, Filled, transfer-Writes}
use otf_cpt.Containers.Vector.Methods.{Vector, capacity, ensure_size}

module _ {A : Type 0} where
  -- The vector holds the elements `xs`: they stand in its first cells, and the rest is raw memory.
  pub record Holds (v : Vector A) (xs : List A) : Type 0 where
    pub size : v.size ≡ length xs
    pub whole : v.buffer.last ≡ v.buffer.cap
    pub fits : v.size ≤ v.buffer.cap
    pub cells : (i : ℕ) → v.buffer.cells i ≡ get_elem? xs i

  -- A method returns a vector that holds `xs`, with room for at least what there was room for.
  pub record Gives (v : Vector A) (r : Option (Vector A)) (xs : List A) : Type 0 where
    pub vector : Vector A
    pub returned : r ≡ some vector
    pub holds : Holds vector xs
    pub room : v.buffer.cap ≤ vector.buffer.cap

  pub get_elem?-some : (xs : List A) (i : ℕ) → i < length xs → (x : A) × (get_elem? xs i ≡ some x)
  get_elem?-some [] i h = elim h [ ]
  get_elem?-some (x ∷ xs) zero h = (x, refl)
  get_elem?-some (x ∷ xs) (suc i) h = get_elem?-some xs i (omega arith)

  pub get_elem?-none : (xs : List A) (i : ℕ) → length xs ≤ i → get_elem? xs i ≡ none
  get_elem?-none [] i h = refl
  get_elem?-none (x ∷ xs) zero h = elim h [ ]
  get_elem?-none (x ∷ xs) (suc i) h = get_elem?-none xs i (omega arith)

  pub get_elem?-at : (xs : List A) {i j : ℕ} → i ≡ j → get_elem? xs i ≡ get_elem? xs j
  get_elem?-at xs e = ap (get_elem? xs) e

  pub get_elem?-append_left :
      (xs ys : List A) (i : ℕ) → i < length xs → get_elem? (xs ++ ys) i ≡ get_elem? xs i
  get_elem?-append_left [] ys i h = elim h [ ]
  get_elem?-append_left (x ∷ xs) ys zero h = refl
  get_elem?-append_left (x ∷ xs) ys (suc i) h = get_elem?-append_left xs ys i (omega arith)

  pub get_elem?-append_right :
      (xs ys : List A) (i : ℕ) → get_elem? (xs ++ ys) (length xs + i) ≡ get_elem? ys i
  get_elem?-append_right [] ys i = get_elem?-at ys (omega arith)
  get_elem?-append_right (x ∷ xs) ys i =
      get_elem?-at (x ∷ xs ++ ys) {j = suc (length xs + i)} (omega arith)
      ∙ get_elem?-append_right xs ys i

  pub get_elem?-take : (n i : ℕ) (xs : List A) → i < n → get_elem? (take n xs) i ≡ get_elem? xs i
  get_elem?-take zero i xs h = elim h [ ]
  get_elem?-take (suc n) i [] h = refl
  get_elem?-take (suc n) zero (x ∷ xs) h = refl
  get_elem?-take (suc n) (suc i) (x ∷ xs) h = get_elem?-take n i xs (omega arith)

  pub get_elem?-drop : (n i : ℕ) (xs : List A) → get_elem? (drop n xs) i ≡ get_elem? xs (n + i)
  get_elem?-drop zero i xs = get_elem?-at xs (omega arith)
  get_elem?-drop (suc n) i [] = refl
  get_elem?-drop (suc n) i (x ∷ xs) =
      get_elem?-drop n i xs ∙ get_elem?-at (x ∷ xs) {i = suc (n + i)} (omega arith)

  pub Holds-Filled : {v : Vector A} {xs : List A} → Holds v xs → Filled v.size v.buffer
  Holds-Filled {v} {xs} h j l = let (x, e) = get_elem?-some xs j (omega arith) in (x, h.cells j ∙ e)

-- However the multiplication by 5 wraps, `ensure_size` asks for at least what is required, and if it is
-- called because there is less, for at most twice that and 16.
new_cap-bounds :
    (cap₀ required : ℕ)
    → cap₀ < required
    → (required ≤ new_cap cap₀ required) × (new_cap cap₀ required ≤ 2 * required + 16)
unfolding new_cap
new_cap-bounds cap₀ required h = (ground arith, ground arith)

-- So many cells of a size, and what `ensure_size` adds to them, have a number of bytes that does not
-- wrap.
abbrev pub Fits : ℕ → ℕ → Type 0
Fits size n = (2 * n + 16) * size < 2 ^ 64

-- Then `malloc` gives room for as many as it is asked for.
room_for : (size n c : ℕ) → 0 < size → Fits size n → c ≤ 2 * n + 16 → c ≡ c * size % 2 ^ 64 / size
room_for size n c p h l =
    let le : c * size ≤ (2 * n + 16) * size = mul-le-mul_right size l in
    sym
      (ap (λ b. b / size) (mod-eq_of_lt {n = c * size} (omega (arith, le, h))) ∙ mul-div_cancel c p)

module _ {A : Type 0} ⦃sized : Sized A⦄ where
  -- A vector whose buffer was written from `i` on, past its old elements.
  transfer-cells :
      (v : Vector A) (xs : List A) (n : ℕ) {r : Option (Buffer A)}
      → Holds v xs
      → (w : Writes (malloc n) r 0 v.size (λ j. v.buffer.cells (0 + j))) → (i : ℕ)
      → w.buffer.cells i ≡ get_elem? xs i
  unfolding malloc
  transfer-cells v xs n h w i = elim (dec_lt i v.size) [
    | yes p ↦ ground (arith, w.inside i, h.cells i)
    | no p ↦ w.outside i (omega arith) ∙ sym (get_elem?-none xs i (omega (arith, h.size)))
  ]

  -- `ensure_size` keeps the elements and makes the room that is asked for, also where the computation of
  -- the capacity wraps, as long as the number of bytes for twice the required capacity and 16 elements
  -- does not.
  pub ensure_size-Gives :
      (n : ℕ) (v : Vector A) (xs : List A)
      → Holds v xs
      → Fits sized.size_of n
      → (g : Gives v (ensure_size n v) xs) × (n ≤ g.vector.buffer.cap)
  unfolding ensure_size capacity
  ensure_size-Gives n v xs h f = elim (Bool-cases (leb n v.buffer.last)) [
    | inl e ↦ (
      record { vector = v; returned = rw e; holds = h; room = omega arith },
      omega (arith, leb→le _ _ e, h.whole),
    )
    | inr e ↦
        let small : v.buffer.last < n = ground arith in
        let bounds = new_cap-bounds v.buffer.last n small in
        let new = malloc {A = A} (new_cap v.buffer.last n) in
        let asked : new.last ≡ new_cap v.buffer.last n = unfold malloc in refl in
        let whole : new_cap v.buffer.last n ≡ new.cap =
          unfold malloc in
          room_for sized.size_of n (new_cap v.buffer.last n) sized.pos f bounds.1 in
        let w =
          transfer-Writes 0 v.size v.buffer new
            (λ j l.
              let (x, q) = get_elem?-some xs j (omega (arith, h.size)) in
              (x, ground (arith, h.cells j)))
            (omega (arith, h.fits, h.whole, bounds.0)) in
        (
          record {
            vector = record { buffer = w.buffer; size = v.size };
            returned = rw (e, w.returned);
            holds = record {
              size = h.size;
              whole = omega (arith, w.cap, w.last);
              fits = omega (arith, w.cap, h.fits, h.whole, bounds.0);
              cells = transfer-cells v xs _ h w;
            };
            room = omega (arith, w.cap, h.whole, bounds.0);
          },
          omega (arith, w.cap, bounds.0),
        )
  ]
