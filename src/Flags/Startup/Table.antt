-- ===== src/Flags/Startup/Table.antt =====
-- include/parse_flags.inc: the flags of the table once they are registered.
use otf_cpt.Common.{
  ℕ, zero, suc, ◌+◌, ◌≡◌, refl, ap, ◌∙◌, subst, inl, inr, Bool, true, false, not, ◌&&◌, some, List,
  [], ◌∷◌, ◌==◌, if◌then◌else◌, get_elem?, All, arith, Bool-cases, ==_iff,
}
use otf_cpt.Flags.Values.{Bytes, Value, equal}
use otf_cpt.Flags.Parser.{Flag, done, find_flag, register_handler, check_index, max_flags}
use otf_cpt.Flags.Setup.{Row, table, set_defaults, register_cpt_flags}
use otf_cpt.Flags.Typed.{HasType, is_bool, is_int, is_double, is_string}
use otf_cpt.Flags.Fields.{IsAlone}

and_true : (a b : Bool) → (a && b) ≡ true → (a ≡ true) × (b ≡ true)
and_true true b h = (refl, h)
and_true false b h = absurd (ground (arith, h))

not-true : (a : Bool) → not a ≡ true → a ≡ false
not-true true h = absurd (ground (arith, h))
not-true false h = refl

equal_iff : (a b : Bytes) → equal a b ≡ true → a ≡ b
equal_iff [] [] h = refl
equal_iff [] (d ∷ b) h = absurd (ground (arith, h))
equal_iff (c ∷ a) [] h = absurd (ground (arith, h))
equal_iff (c ∷ a) (d ∷ b) h =
    let (first, rest) = and_true (c == d) (equal a b) h in
    cc ((==_iff c d).0 first, equal_iff a b rest)

module _ {D : Type 0} where
  unfoldable pub flag_of : Row D → ℕ → Flag
  flag_of r field = record { name = r.name; type = r.type; field = field }

  unfoldable pub flags_of : List (Row D) → ℕ → List Flag
  flags_of [] field = []
  flags_of (r ∷ rows) field = flag_of r field ∷ flags_of rows (suc field)

  unfoldable pub table_flags : D → List Flag
  table_flags minus_one = flags_of (table minus_one) 0

  pub table-registered :
      (minus_one : D) (fields : ℕ → Value D)
      → register_cpt_flags
          (table minus_one)
          0
          (record { flags = []; unknown_flags = []; fields = fields })
        ≡ done (record { flags = table_flags minus_one; unknown_flags = []; fields = fields })
  unfolding register_cpt_flags table register_handler check_index max_flags table_flags flags_of
      flag_of
  table-registered minus_one fields = refl

  -- No row has the name.
  absent : Bytes → List (Row D) → Bool
  absent name [] = true
  absent name (r ∷ rows) = let rest = absent name rows in not (equal r.name name) && rest

  distinct : List (Row D) → Bool
  distinct [] = true
  distinct (r ∷ rows) = let rest = distinct rows in absent r.name rows && rest

  table-distinct : (minus_one : D) → distinct (table minus_one) ≡ true
  unfolding distinct absent table
  table-distinct minus_one = refl

  -- What a search finds is the flag of some row.
  record IsRow (name : Bytes) (rows : List (Row D)) (field : ℕ) (g : Flag) : Type 0 where
    index : ℕ
    row : Row D
    at : get_elem? rows index ≡ some row
    named : equal name row.name ≡ true
    flag : g ≡ flag_of row (field + index)

  find_flag-IsRow :
      (name : Bytes) (rows : List (Row D)) (field : ℕ) (g : Flag)
      → find_flag name (flags_of rows field) ≡ some g
      → IsRow name rows field g
  unfolding find_flag flags_of flag_of
  find_flag-IsRow name [] field g e = absurd (ground (arith, e))
  find_flag-IsRow name (r ∷ rows) field g e = elim (Bool-cases (equal name r.name)) [
    | inl h ↦ record {
      index = 0;
      row = r;
      at = refl;
      named = h;
      flag = here (equal name r.name) h e;
    }
    | inr h ↦
        let rest = find_flag-IsRow name rows (suc field) g (there (equal name r.name) h e) in
        record {
          index = suc rest.index;
          row = rest.row;
          at = rest.at;
          named = rest.named;
          flag = rest.flag ∙ ap (flag_of rest.row) (omega arith);
        }
  ]
    where
      here :
          (b : Bool)
          → b ≡ true
          → (if b then some (flag_of r field) else find_flag name (flags_of rows (suc field)))
            ≡ some g
          → g ≡ flag_of r (field + 0)
      here true h e =
          (let one : g ≡ flag_of r field = ground (arith, e) in one) ∙ ap (flag_of r) (omega arith)
      here false h e = absurd (ground (arith, h))

      there :
          (b : Bool)
          → b ≡ false
          → (if b then some (flag_of r field) else find_flag name (flags_of rows (suc field)))
            ≡ some g
          → find_flag name (flags_of rows (suc field)) ≡ some g
      there false h e = e
      there true h e = absurd (ground (arith, h))

  absent-row :
      (name : Bytes) (rows : List (Row D)) (i : ℕ) (row : Row D)
      → absent name rows ≡ true
      → get_elem? rows i ≡ some row
      → equal row.name name ≡ false
  unfolding absent
  absent-row name [] i row h e = absurd (ground (arith, e))
  absent-row name (r ∷ rows) zero row h e =
      let same : r ≡ row = ground (arith, e) in
      subst (λ q. equal q.name name ≡ false) same (not-true (equal r.name name) (and_true _ _ h).0)
  absent-row name (r ∷ rows) (suc i) row h e = absent-row name rows i row (and_true _ _ h).1 e

  distinct-find :
      (rows : List (Row D)) (field i : ℕ) (row : Row D) (name : Bytes)
      → distinct rows ≡ true
      → get_elem? rows i ≡ some row
      → equal name row.name ≡ true
      → find_flag name (flags_of rows field) ≡ some (flag_of row (field + i))
  unfolding distinct find_flag flags_of flag_of
  distinct-find [] field i row name h e n = absurd (ground (arith, e))
  distinct-find (r ∷ rows) field zero row name h e n =
      let same : r ≡ row = ground (arith, e) in
      let named : equal name r.name ≡ true = ap (λ q. equal name q.name) same ∙ n in
      rw named
        (ap (λ q. some (flag_of q field)) same ∙ ap (λ k. some (flag_of row k)) (omega arith))
  distinct-find (r ∷ rows) field (suc i) row name h e n =
      let other = absent-row r.name rows i row (and_true _ _ h).0 e in
      let name_is = equal_iff name row.name n in
      let passed : equal name r.name ≡ false = ap (λ q. equal q r.name) name_is ∙ other in
      rw passed (
        distinct-find rows (suc field) i row name (and_true _ _ h).1 e n
        ∙ ap (λ k. some (flag_of row k)) (omega arith))

  -- Each flag of the table has a name and a field of its own.
  pub table-IsAlone :
      (minus_one : D) (i : ℕ) (row : Row D)
      → get_elem? (table minus_one) i ≡ some row
      → IsAlone (flag_of row i) (table_flags minus_one)
  unfolding table_flags flag_of
  table-IsAlone minus_one i row e = record {
    found = λ name n.
        distinct-find (table minus_one) 0 i row name (table-distinct minus_one) e n
        ∙ ap (λ k. some (flag_of row k)) (omega arith);
    other = λ name g n found same.
        let r = find_flag-IsRow name (table minus_one) 0 g found in
        let index : r.index ≡ i = omega (arith, same, ap (λ (f : Flag). f.field) r.flag) in
        let at : get_elem? (table minus_one) i ≡ some r.row =
          subst (λ k. get_elem? (table minus_one) k ≡ some r.row) index r.at in
        let one : r.row ≡ row = ground (arith, at, e) in
        ground (arith, n, ap (λ (q : Row D). equal name q.name) one, r.named);
  }

  pub set_defaults-row :
      (rows : List (Row D)) (old : ℕ → Value D) (i : ℕ) (row : Row D)
      → get_elem? rows i ≡ some row
      → set_defaults rows old i ≡ row.default
  unfolding set_defaults
  set_defaults-row [] old i row e = absurd (ground (arith, e))
  set_defaults-row (r ∷ rows) old zero row e =
      ap (λ q. q.default) (let same : r ≡ row = ground (arith, e) in same)
  set_defaults-row (r ∷ rows) old (suc i) row e = set_defaults-row rows (λ f. old (suc f)) i row e

  All-row :
      (P : Row D → Type 0) (rows : List (Row D)) (i : ℕ) (row : Row D)
      → All P rows
      → get_elem? rows i ≡ some row
      → P row
  All-row P [] i row h e = absurd (ground (arith, e))
  All-row P (r ∷ rows) zero row (h, hs) e =
      subst P (let same : r ≡ row = ground (arith, e) in same) h
  All-row P (r ∷ rows) (suc i) row (h, hs) e = All-row P rows i row hs e

  pub table-HasType :
      (minus_one : D) (i : ℕ) (row : Row D)
      → get_elem? (table minus_one) i ≡ some row
      → HasType row.type row.default
  unfolding table
  table-HasType minus_one i row e =
      All-row (λ r. HasType r.type r.default) (table minus_one) i row
        (
          is_bool _,
          (
            is_bool _,
            (
              is_bool _,
              (
                is_bool _,
                (
                  is_bool _,
                  (
                    is_bool _,
                    (
                      is_bool _,
                      (
                        is_bool _,
                        (
                          is_bool _,
                          (
                            is_bool _,
                            (
                              is_bool _,
                              (
                                is_bool _,
                                (
                                  is_bool _,
                                  (
                                    is_int _,
                                    (is_int _, (is_double _, (is_string _, (is_string _, tt)))),
                                  ),
                                ),
                              ),
                            ),
                          ),
                        ),
                      ),
                    ),
                  ),
                ),
              ),
            ),
          ),
        )
        e
