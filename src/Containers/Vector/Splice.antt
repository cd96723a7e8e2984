-- ===== src/Containers/Vector/Splice.antt =====
-- A list with a part of it replaced, and the cells of memory that hold it.
use otf_cpt.Common.{
  ℕ, ◌+◌, ◌-◌, ◌≤◌, ◌<◌, ◌≡◌, sym, ap, ◌∙◌, ◌⊎◌, inl, inr, Option, none, List, ◌++◌, arith, length,
  get_elem?, take, drop, dec_lt, length-append, length-take, length-drop,
}
use otf_cpt.Containers.Vector.Buffer.{Buffer}
use otf_cpt.Containers.Vector.Contents.{
  get_elem?-none, get_elem?-append_left, get_elem?-append_right, get_elem?-take, get_elem?-drop,
  get_elem?-at,
}

module _ {A : Type 0} where
  -- `xs` with `ys` in place of the elements from `i` to `k`.
  abbrev pub splice : ℕ → ℕ → List A → List A → List A
  splice i k ys xs = take i xs ++ (ys ++ drop k xs)

  pub length-splice :
      (i k : ℕ) (ys xs : List A)
      → i ≤ length xs
      → length (splice i k ys xs) ≡ i + length ys + (length xs - k)
  length-splice i k ys xs h = omega (
    arith,
    length-append (take i xs) (ys ++ drop k xs),
    length-append ys (drop k xs),
    length-take i xs,
    length-drop k xs,
  )

  splice-before :
      (i k j : ℕ) (ys xs : List A)
      → i ≤ length xs
      → j < i
      → get_elem? (splice i k ys xs) j ≡ get_elem? xs j
  splice-before i k j ys xs h l =
      get_elem?-append_left (take i xs) _ j (omega (arith, length-take i xs))
      ∙ get_elem?-take i j xs l

  splice-from :
      (i k j : ℕ) (ys xs : List A)
      → i ≤ length xs
      → get_elem? (splice i k ys xs) (i + j) ≡ get_elem? (ys ++ drop k xs) j
  splice-from i k j ys xs h =
      get_elem?-at (splice i k ys xs) (omega (arith, length-take i xs))
      ∙ get_elem?-append_right (take i xs) (ys ++ drop k xs) j

  -- Cells that agree with the three parts hold the spliced list.
  pub splice-cells :
      (i k : ℕ) (ys xs : List A) (f : ℕ → Option A)
      → i ≤ length xs
      → ((j : ℕ) → j < i → f j ≡ get_elem? xs j)
      → ((j : ℕ) → j < length ys → f (i + j) ≡ get_elem? ys j)
      → ((j : ℕ) → f (i + length ys + j) ≡ get_elem? xs (k + j))
      → (j : ℕ) → f j ≡ get_elem? (splice i k ys xs) j
  splice-cells i k ys xs f h before inside after j = elim (dec_lt j i) [
    | yes p ↦ before j p ∙ sym (splice-before i k j ys xs h p)
    | no p ↦ elim (dec_lt (j - i) (length ys)) [
      | yes q ↦
          ap f (omega arith)
          ∙ (inside (j - i) q
              ∙ (sym (get_elem?-append_left ys (drop k xs) (j - i) q)
                  ∙ (sym (splice-from i k (j - i) ys xs h)
                      ∙ get_elem?-at (splice i k ys xs) (omega arith))))
      | no q ↦
          ap f (omega arith)
          ∙ (after (j - i - length ys)
              ∙ (sym (get_elem?-drop k (j - i - length ys) xs)
                  ∙ (sym (get_elem?-append_right ys (drop k xs) (j - i - length ys))
                      ∙ (sym (splice-from i k (length ys + (j - i - length ys)) ys xs h)
                          ∙ get_elem?-at (splice i k ys xs) (omega arith)))))
    ]
  ]

  -- Cells that got more elements after the old ones.
  pub append-cells :
      (n : ℕ) (ys xs : List A) (b b' : Buffer A)
      → n ≡ length xs
      → ((j : ℕ) → b.cells j ≡ get_elem? xs j)
      → ((j : ℕ) → j < length ys → b'.cells (n + j) ≡ get_elem? ys j)
      → ((j : ℕ) → (j < n) ⊎ (n + length ys ≤ j) → b'.cells j ≡ b.cells j)
      → (j : ℕ) → b'.cells j ≡ get_elem? (xs ++ ys) j
  append-cells n ys xs b b' e held inside outside j = elim (dec_lt j n) [
    | yes p ↦ outside j (inl p) ∙ (held j ∙ sym (get_elem?-append_left xs ys j (omega arith)))
    | no p ↦
        ap b'.cells (omega arith)
        ∙ (from (j - n)
            ∙ (sym (get_elem?-append_right xs ys (j - n)) ∙ get_elem?-at (xs ++ ys) (omega arith)))
  ]
    where
      from : (i : ℕ) → b'.cells (n + i) ≡ get_elem? ys i
      from i = elim (dec_lt i (length ys)) [
        | yes p ↦ inside i p
        | no p ↦
            outside (n + i) (inr (omega arith))
            ∙ (held (n + i)
                ∙ (get_elem?-none xs (n + i) (omega arith)
                    ∙ sym (get_elem?-none ys i (omega arith))))
      ]

  -- Cells whose end was destroyed hold what is left of the list.
  pub keep-cells :
      (n k : ℕ) (ys xs : List A) (b b' : Buffer A)
      → length ys ≡ n
      → length xs ≡ n + k
      → ((j : ℕ) → j < n → get_elem? xs j ≡ get_elem? ys j)
      → ((j : ℕ) → b.cells j ≡ get_elem? xs j)
      → ((j : ℕ) → j < k → b'.cells (n + j) ≡ none)
      → ((j : ℕ) → (j < n) ⊎ (n + k ≤ j) → b'.cells j ≡ b.cells j)
      → (j : ℕ) → b'.cells j ≡ get_elem? ys j
  keep-cells n k ys xs b b' e m same held inside outside j = elim (dec_lt j n) [
    | yes p ↦ outside j (inl p) ∙ (held j ∙ same j p)
    | no p ↦ elim (dec_lt (j - n) k) [
      | yes q ↦
          ap b'.cells (omega arith) ∙ (inside (j - n) q ∙ sym (get_elem?-none ys j (omega arith)))
      | no q ↦
          outside j (inr (omega arith))
          ∙ (held j ∙ (get_elem?-none xs j (omega arith) ∙ sym (get_elem?-none ys j (omega arith))))
    ]
  ]
