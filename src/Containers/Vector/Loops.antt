-- ===== src/Containers/Vector/Loops.antt =====
-- What the loops over a vector's memory write, and that they neither read raw memory nor leave the
-- buffer.
use otf_cpt.Common.{
  ℕ, zero, suc, ◌+◌, ◌≤◌, ◌<◌, ◌≡◌, refl, ◌⊎◌, inl, inr, Option, none, some, List, [], ◌∷◌, arith,
  length, get_elem?, update, lt→ltb, Bool-cases, ◌==◌,
}
use otf_cpt.Containers.Vector.Buffer.{
  Buffer, construct, assign_to, destroy, destroy_range, shift_cell, shift_up, shift_down,
  construct_range, transfer,
}

module _ {A : Type 0} where
  -- The loop returns, and has set the `n` cells from `i` on to `f` and left the others.
  pub record Writes (b : Buffer A) (r : Option (Buffer A)) (i n : ℕ) (f : ℕ → Option A)
      : Type 0 where
    pub buffer : Buffer A
    pub returned : r ≡ some buffer
    pub cap : buffer.cap ≡ b.cap
    pub last : buffer.last ≡ b.last
    pub inside : (j : ℕ) → j < n → buffer.cells (i + j) ≡ f j
    pub outside : (j : ℕ) → (j < i) ⊎ (i + n ≤ j) → buffer.cells j ≡ b.cells j

  pub construct-eq :
      (i : ℕ) (x : A) (b : Buffer A)
      → i < b.cap
      → construct i x b ≡ some (record b { cells = update b.cells i (some x) })
  unfolding construct
  construct-eq i x b h = rw (lt→ltb i b.cap h)

  pub assign_to-eq :
      (i : ℕ) (x y : A) (b : Buffer A)
      → b.cells i ≡ some y
      → assign_to i x b ≡ some (record b { cells = update b.cells i (some x) })
  unfolding assign_to
  assign_to-eq i x y b h = rw (h, assign_to)

  pub construct-Writes :
      (i : ℕ) (x : A) (b : Buffer A)
      → i < b.cap
      → Writes b (construct i x b) i 1 (get_elem? (x ∷ []))
  construct-Writes i x b h = record {
    buffer = record b { cells = update b.cells i (some x) };
    returned = construct-eq i x b h;
    cap = refl;
    last = refl;
    inside = elim [ zero ↦ λ k. ground arith | suc j ↦ λ k. absurd (omega arith) ];
    outside = λ j k. ground arith;
  }

  pub assign_to-Writes :
      (i : ℕ) (x y : A) (b : Buffer A)
      → b.cells i ≡ some y
      → Writes b (assign_to i x b) i 1 (get_elem? (x ∷ []))
  assign_to-Writes i x y b h = record {
    buffer = record b { cells = update b.cells i (some x) };
    returned = assign_to-eq i x y b h;
    cap = refl;
    last = refl;
    inside = elim [ zero ↦ λ k. ground arith | suc j ↦ λ k. absurd (omega arith) ];
    outside = λ j k. ground arith;
  }

  pub construct_range-Writes :
      (i : ℕ) (xs : List A) (b : Buffer A)
      → i + length xs ≤ b.cap
      → Writes b (construct_range i xs b) i (length xs) (get_elem? xs)
  unfolding construct_range
  construct_range-Writes i [] b h = record {
    buffer = b;
    returned = refl;
    cap = refl;
    last = refl;
    inside = λ j k. absurd (omega arith);
    outside = λ j k. refl;
  }
  construct_range-Writes i (x ∷ xs) b h =
      let w =
        construct_range-Writes (suc i) xs (record b { cells = update b.cells i (some x) })
          (omega arith) in
      record {
        buffer = w.buffer;
        returned = rw (construct-eq i x b (omega arith), construct_range) w.returned;
        cap = w.cap;
        last = w.last;
        inside = elim [
          | zero ↦ λ k. ground (arith, w.outside (i + 0))
          | suc j ↦ λ k. ground (arith, w.inside j)
        ];
        outside = λ j k. ground (arith, w.outside j);
      }

  pub destroy_range-Writes :
      (i n : ℕ) (b : Buffer A) → Writes b (some (destroy_range i n b)) i n (λ _. none)
  unfolding destroy_range
  destroy_range-Writes i zero b = record {
    buffer = b;
    returned = refl;
    cap = refl;
    last = refl;
    inside = λ j k. absurd (omega arith);
    outside = λ j k. refl;
  }
  destroy_range-Writes i (suc n) b =
      let w = destroy_range-Writes (suc i) n (destroy i b) in
      record {
        buffer = w.buffer;
        returned = w.returned;
        cap = w.cap;
        last = w.last;
        inside = elim [
          | zero ↦ λ k. ground (arith, w.outside (i + 0))
          | suc j ↦ λ k. ground (arith, w.inside j)
        ];
        outside = λ j k. ground (arith, w.outside j);
      }

  -- Every cell below `end` is initialised.
  abbrev pub Filled : ℕ → Buffer A → Type 0
  Filled end b = (j : ℕ) → j < end → (x : A) × (b.cells j ≡ some x)

  shift_cell-eq :
      (end to from : ℕ) (b : Buffer A) (x : A)
      → b.cells from ≡ some x
      → to < b.cap
      → Filled end b
      → shift_cell end to from b ≡ some (record b { cells = update b.cells to (some x) })
  unfolding shift_cell
  shift_cell-eq end to from b x e h fill = ground (arith, fill to)

  Filled-update :
      (end i : ℕ) (x : A) (b : Buffer A)
      → Filled end b
      → Filled end (record b { cells = update b.cells i (some x) })
  Filled-update end i x b fill j h = elim (Bool-cases (i == j)) [
    | inl e ↦ (x, rw e)
    | inr e ↦ ((fill j h).0, rw e (fill j h).1)
  ]

  pub shift_up-Writes :
      (end pos n k : ℕ) (b : Buffer A)
      → Filled end b
      → pos + k ≤ end
      → pos + k + n ≤ b.cap
      → Writes b (shift_up end pos n k b) (pos + n) k (λ j. b.cells (pos + j))
  unfolding shift_up
  shift_up-Writes end pos n zero b fill h g = record {
    buffer = b;
    returned = refl;
    cap = refl;
    last = refl;
    inside = λ j l. absurd (omega arith);
    outside = λ j l. refl;
  }
  shift_up-Writes end pos n (suc k) b fill h g =
      let (x, e) = fill (pos + k) (omega arith) in
      let to = pos + k + n in
      let b' : Buffer A = record b { cells = update b.cells to (some x) } in
      let w =
        shift_up-Writes end pos n k b' (Filled-update end to x b fill) (omega arith)
          (omega arith) in
      record {
        buffer = w.buffer;
        returned =
            rw (shift_cell-eq end to (pos + k) b x e (omega arith) fill, shift_up) w.returned;
        cap = w.cap;
        last = w.last;
        inside = λ j l. ground (arith, w.inside j, w.outside (pos + n + j), e);
        outside = λ j l. ground (arith, w.outside j);
      }

  pub shift_down-Writes :
      (to from k : ℕ) (b : Buffer A)
      → Filled (from + k) b
      → to < from
      → Writes b (shift_down to from k b) to k (λ j. b.cells (from + j))
  unfolding shift_down
  shift_down-Writes to from zero b fill h = record {
    buffer = b;
    returned = refl;
    cap = refl;
    last = refl;
    inside = λ j l. absurd (omega arith);
    outside = λ j l. refl;
  }
  shift_down-Writes to from (suc k) b fill h =
      let (x, e) = fill from (omega arith) in
      let (y, e') = fill to (omega arith) in
      let b' : Buffer A = record b { cells = update b.cells to (some x) } in
      let w =
        shift_down-Writes (suc to) (suc from) k b'
          (λ j l. Filled-update (from + suc k) to x b fill j (omega arith)) (omega arith) in
      record {
        buffer = w.buffer;
        returned = rw (e, assign_to-eq to x y b e', shift_down) w.returned;
        cap = w.cap;
        last = w.last;
        inside = elim [
          | zero ↦ λ l. ground (arith, w.outside (to + 0), e)
          | suc j ↦ λ l. ground (arith, w.inside j)
        ];
        outside = λ j l. ground (arith, w.outside j);
      }

  pub transfer-Writes :
      (i k : ℕ) (old new : Buffer A)
      → ((j : ℕ) → j < k → (x : A) × (old.cells (i + j) ≡ some x))
      → i + k ≤ new.cap
      → Writes new (transfer i k old new) i k (λ j. old.cells (i + j))
  unfolding transfer
  transfer-Writes i zero old new fill h = record {
    buffer = new;
    returned = refl;
    cap = refl;
    last = refl;
    inside = λ j l. absurd (omega arith);
    outside = λ j l. refl;
  }
  transfer-Writes i (suc k) old new fill h =
      let (x, e) = fill 0 (omega arith) in
      let e₀ : old.cells i ≡ some x = ground (arith, e) in
      let new' : Buffer A = record new { cells = update new.cells i (some x) } in
      let w =
        transfer-Writes (suc i) k (destroy i old) new'
          (λ j l. let (y, e') = fill (suc j) (omega arith) in (y, ground (arith, e')))
          (omega arith) in
      record {
        buffer = w.buffer;
        returned = rw (e₀, construct-eq i x new (omega arith), transfer) w.returned;
        cap = w.cap;
        last = w.last;
        inside = elim [
          | zero ↦ λ l. ground (arith, w.outside (i + 0), e)
          | suc j ↦ λ l. ground (arith, w.inside j)
        ];
        outside = λ j l. ground (arith, w.outside j);
      }
