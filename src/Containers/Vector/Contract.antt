-- ===== src/Containers/Vector/Contract.antt =====
-- include/containers/Vector.h: sequences of method calls on a vector, beside the same calls on a list.
use otf_cpt.Common.{
  subst, some-injective, ℕ, ◌+◌, ◌*◌, ◌^◌, ◌-◌, ltb→lt, ◌≡◌, refl, ◌∙◌, Option, none, some, List,
  [], ◌∷◌, ◌++◌, arith, length, take, replicate, ltb, leb, leb→le, Bool, true, false, if◌then◌else◌,
}
use otf_cpt.Containers.Vector.Buffer.{Sized}
use otf_cpt.Containers.Vector.Methods.{
  Vector, clear, reserve, push_back, pop_back, insert, insert_range, erase, assign, resize,
}
use otf_cpt.Containers.Vector.Contents.{Holds, Gives, Fits}
use otf_cpt.Containers.Vector.Splice.{splice}
use otf_cpt.Containers.Vector.Whole.{reserve-Gives, erase-Gives, clear-Gives, assign-Gives}
use otf_cpt.Containers.Vector.Refine.{insert_range-Gives}
use otf_cpt.Containers.Vector.Single.{push_back-Gives, insert-Gives, pop_back-Gives}
use otf_cpt.Containers.Vector.Resize.{resize-Gives}

pub data Call (A : Type 0) : Type 0 where
  do_push_back : A → Call A
  do_pop_back : Call A
  do_insert : ℕ → A → Call A
  do_insert_range : ℕ → List A → Call A
  do_erase : ℕ → ℕ → Call A
  do_clear : Call A
  do_reserve : ℕ → Call A
  do_assign : List A → Call A
  do_resize : A → ℕ → Call A

-- Whether `n` elements of a size, twice that and 16, have a number of bytes that does not wrap.
unfoldable pub fits : ℕ → ℕ → Bool
fits size n = ltb ((2 * n + 16) * size) (2 ^ 64)

fits-Fits : (size n : ℕ) → fits size n ≡ true → Fits size n
unfolding fits
fits-Fits size n e = ltb→lt _ _ e

module _ {A : Type 0} ⦃sized : Sized A⦄ where
  unfoldable pub call : Call A → Vector A → Option (Vector A)
  unfolding push_back pop_back insert insert_range erase clear reserve assign resize
  call (do_push_back x) v = push_back x v
  call do_pop_back v = pop_back v
  call (do_insert pos x) v = insert pos x v
  call (do_insert_range pos items) v = insert_range pos items v
  call (do_erase first last) v = erase first last v
  call do_clear v = some (clear v)
  call (do_reserve n) v = reserve n v
  call (do_assign items) v = assign items v
  call (do_resize x n) v = resize x n v

  -- The call on a list; `none` where the caller breaks the bounds, or asks for more room than the memory
  -- can have.
  unfoldable pub list_call : Call A → List A → Option (List A)
  unfolding fits
  list_call (do_push_back x) xs =
      if fits sized.size_of (length xs + 1) then some (xs ++ x ∷ []) else none
  list_call do_pop_back xs = if ltb 0 (length xs) then some (take (length xs - 1) xs) else none
  list_call (do_insert pos x) xs =
      if fits sized.size_of (length xs + 1)
      then if leb pos (length xs) then some (splice pos pos (x ∷ []) xs) else none
      else none
  list_call (do_insert_range pos items) xs =
      if fits sized.size_of (length xs + length items)
      then if leb pos (length xs) then some (splice pos pos items xs) else none
      else none
  list_call (do_erase first last) xs =
      if leb first last
      then if leb last (length xs) then some (splice first last [] xs) else none
      else none
  list_call do_clear xs = some []
  list_call (do_reserve n) xs = if fits sized.size_of n then some xs else none
  list_call (do_assign items) xs = if fits sized.size_of (length items) then some items else none
  list_call (do_resize x n) xs =
      if fits sized.size_of n then some (take n xs ++ replicate (n - length xs) x) else none

  unfoldable pub calls : List (Call A) → Vector A → Option (Vector A)
  unfolding call
  calls [] v = some v
  calls (c ∷ cs) v = elim (call c v) [ none ↦ none | some w ↦ calls cs w ]

  unfoldable pub list_calls : List (Call A) → List A → Option (List A)
  unfolding list_call
  list_calls [] xs = some xs
  list_calls (c ∷ cs) xs = elim (list_call c xs) [ none ↦ none | some ys ↦ list_calls cs ys ]

  guarded :
      (b : Bool) (r : Option (List A)) (ys : List A)
      → (if b then r else none) ≡ some ys
      → (b ≡ true) × (r ≡ some ys)
  guarded true r ys e = (refl, e)
  guarded false r ys e = ground (arith, e)

  call-Gives :
      (c : Call A) (v : Vector A) (xs ys : List A)
      → Holds v xs
      → list_call c xs ≡ some ys
      → Gives v (call c v) ys
  unfolding call list_call
  call-Gives (do_push_back x) v xs ys h e =
      let (f, q) = guarded (fits sized.size_of (length xs + 1)) _ ys e in
      subst (Gives v (push_back x v)) (some-injective _ _ q)
        (push_back-Gives x v xs h (fits-Fits _ _ f))
  call-Gives do_pop_back v xs ys h e =
      let (b, q) = guarded (ltb 0 (length xs)) _ ys e in
      subst (Gives v (pop_back v)) (some-injective _ _ q)
        (pop_back-Gives v xs h (ground (arith, b)))
  call-Gives (do_insert pos x) v xs ys h e =
      let (f, q) = guarded (fits sized.size_of (length xs + 1)) _ ys e in
      let (b, q') = guarded (leb pos (length xs)) _ ys q in
      subst (Gives v (insert pos x v)) (some-injective _ _ q')
        (insert-Gives pos x v xs h (fits-Fits _ _ f) (leb→le _ _ b))
  call-Gives (do_insert_range pos items) v xs ys h e =
      let (f, q) = guarded (fits sized.size_of (length xs + length items)) _ ys e in
      let (b, q') = guarded (leb pos (length xs)) _ ys q in
      subst (Gives v (insert_range pos items v)) (some-injective _ _ q')
        (insert_range-Gives pos items v xs h (fits-Fits _ _ f) (leb→le _ _ b))
  call-Gives (do_erase first last) v xs ys h e =
      let (b, q) = guarded (leb first last) _ ys e in
      let (b', q') = guarded (leb last (length xs)) _ ys q in
      subst (Gives v (erase first last v)) (some-injective _ _ q')
        (erase-Gives first last v xs h (leb→le _ _ b) (leb→le _ _ b'))
  call-Gives do_clear v xs ys h e =
      subst (Gives v (some (clear v))) (some-injective _ _ e) (clear-Gives v xs h)
  call-Gives (do_reserve n) v xs ys h e =
      let (f, q) = guarded (fits sized.size_of n) _ ys e in
      subst (Gives v (reserve n v)) (some-injective _ _ q)
        (reserve-Gives n v xs h (fits-Fits _ _ f)).0
  call-Gives (do_assign items) v xs ys h e =
      let (f, q) = guarded (fits sized.size_of (length items)) _ ys e in
      subst (Gives v (assign items v)) (some-injective _ _ q)
        (assign-Gives items v xs h (fits-Fits _ _ f))
  call-Gives (do_resize x n) v xs ys h e =
      let (f, q) = guarded (fits sized.size_of n) _ ys e in
      subst (Gives v (resize x n v)) (some-injective _ _ q)
        (resize-Gives x n v xs h (fits-Fits _ _ f))

  calls-eq :
      (c : Call A) (cs : List (Call A)) (v w : Vector A)
      → call c v ≡ some w
      → calls (c ∷ cs) v ≡ calls cs w
  unfolding calls
  calls-eq c cs v w e = rw (e, calls)

  list_calls-eq :
      (c : Call A) (cs : List (Call A)) (xs ys : List A)
      → list_calls (c ∷ cs) xs ≡ some ys
      → (zs : List A) × ((list_call c xs ≡ some zs) × (list_calls cs zs ≡ some ys))
  unfolding list_calls
  list_calls-eq c cs xs ys e = go (list_call c xs) refl e
    where
      go :
          (r : Option (List A))
          → list_call c xs ≡ r
          → (elim r [ none ↦ none | some ys ↦ list_calls cs ys ]) ≡ some ys
          → (zs : List A) × ((list_call c xs ≡ some zs) × (list_calls cs zs ≡ some ys))
      go none q e = ground (arith, e)
      go (some zs) q e = (zs, (q, e))

  -- Method calls are made on a vector one after another, with positions in its bounds and arguments that
  -- are not elements of the vector itself, and for the sizes that they ask for, twice that and 16
  -- elements have a number of bytes below 2 ^ 64. Then nothing on the way is undefined, the vector ends
  -- with the elements that the calls leave in a list, and with at least as much room as before.
  pub calls-Gives :
      (cs : List (Call A)) (v : Vector A) (xs ys : List A)
      → Holds v xs
      → list_calls cs xs ≡ some ys
      → Gives v (calls cs v) ys
  unfolding calls list_calls
  calls-Gives [] v xs ys h e = record {
    vector = v;
    returned = refl;
    holds = subst (Holds v) (some-injective _ _ e) h;
    room = omega arith;
  }
  calls-Gives (c ∷ cs) v xs ys h e =
      let (zs, (q, rest)) = list_calls-eq c cs xs ys e in
      let g = call-Gives c v xs zs h q in
      let r = calls-Gives cs g.vector zs ys g.holds rest in
      record {
        vector = r.vector;
        returned = calls-eq c cs v g.vector g.returned ∙ r.returned;
        holds = r.holds;
        room = omega (arith, g.room, r.room);
      }
