-- ===== src/Flags/Fields.antt =====
-- What a sequence of settings leaves in the field of a flag.
use otf_cpt.Common.{
  ℕ, ◌+◌, ◌≤◌, ◌<◌, ◌≡◌, ◌≢◌, refl, sym, ap, ◌∙◌, subst, inl, inr, Bool, true, false, none, some,
  List, [], ◌∷◌, ◌++◌, ltb, if◌then◌else◌, length, length-append, arith, update, update_self,
  update-ne, Bool-cases, Option-cases,
}
use otf_cpt.Flags.Values.{
  Bytes, Libc, Value, bool_value, mode_value, string_value, int_value, double_value, uptr_value,
  s64_value, parse, equal,
}
use otf_cpt.Flags.Parser.{
  Parser, Flag, Error, parsing_failed, check_failed, Outcome, done, died, out_of_bounds, endless,
  ◌>>=◌, die, check_index, max_unknown_flags, add, find_flag, run_handler, set_flag,
  continue_on_error,
}
use otf_cpt.Flags.Ends.{
  Ends, Ends-bind, Ends-imp, count_unknown, count_unknown-nil, count_unknown-cons,
}
use otf_cpt.Flags.Typed.{HasType, parse-HasType}
use otf_cpt.Flags.Grammar.{set_all}

-- The name finds the flag, and no other name finds the flag's field.
pub record IsAlone (f : Flag) (flags : List Flag) : Type 0 where
  pub found : (name : Bytes) → equal name f.name ≡ true → find_flag name flags ≡ some f
  pub other :
      (name : Bytes) (g : Flag)
      → equal name f.name ≡ false
      → find_flag name flags ≡ some g
      → g.field ≢ f.field

module _ {D : Type 0} where
  -- Each setting with the flag's name in turn.
  unfoldable pub field_of : Libc D → Flag → List (Bytes × Bytes) → Value D → Value D
  field_of libc f [] old = old
  field_of libc f ((name, value) ∷ r) old =
      field_of libc f r (if equal name f.name then (parse libc f.type value old).1 else old)

  -- What settings leave, if they return.
  pub record Left (libc : Libc D) (f : Flag) (settings : List (Bytes × Bytes)) (p p' : Parser D)
      : Type 0 where
    pub flags : p'.flags ≡ p.flags
    pub field : p'.fields f.field ≡ field_of libc f settings (p.fields f.field)
    pub unknown : length p'.unknown_flags ≡ length p.unknown_flags + count_unknown p.flags settings

  Ends-checked :
      {A : Type 0} (P : A → Type 0) (O : Type 0) (ok : Bool) (a : A) (e : Error) (p : Parser D)
      → P a
      → Ends P O (if ok then done a else die e p)
  unfolding die
  Ends-checked P O true a e p h = h
  Ends-checked P O false a e p h = tt

  set_flag-known :
      (libc : Libc D) (g : Flag) (name value : Bytes) (p : Parser D)
      → find_flag name p.flags ≡ some g
      → set_flag libc (name, value) p ≡ (
          let (ok, v) = parse libc g.type value (p.fields g.field) in
          let p' = record p { fields = update p.fields g.field v } in
          if ok then done p' else die parsing_failed p')
  unfolding set_flag run_handler
  set_flag-known libc g name value p e = rw (run_handler, e) refl

  known-Left :
      (libc : Libc D) (f g : Flag) (name value : Bytes) (p : Parser D)
      → IsAlone f p.flags
      → find_flag name p.flags ≡ some g
      → Left libc f ((name, value) ∷ []) p (record p {
        fields = update p.fields g.field (parse libc g.type value (p.fields g.field)).1;
      })
  unfolding field_of count_unknown
  known-Left libc f g name value p alone e = record {
    flags = refl;
    unknown = rw (count_unknown, e) (omega arith);
    field = elim (Bool-cases (equal name f.name)) [
      | inl same ↦
          let one : g ≡ f = ground (arith, e, alone.found name same) in
          rw same (rw one (update_self p.fields f.field _))
      | inr other ↦ rw other (update-ne p.fields g.field f.field _ (alone.other name g other e))
    ];
  }

  set_flag-unknown :
      (libc : Libc D) (name value : Bytes) (p : Parser D)
      → find_flag name p.flags ≡ none
      → set_flag libc (name, value) p ≡ add name p
  unfolding set_flag run_handler
  set_flag-unknown libc name value p e = rw (run_handler, e) (returned (add name p))
    where
      returned :
          (m : Outcome (Parser D))
          → (do
            (res, p') ← (do p' ← m; done (true, p'))
            if res then done p' else die parsing_failed p')
            ≡ m
      returned (done a) = refl
      returned (died e x) = refl
      returned out_of_bounds = refl
      returned endless = refl

  unknown-Left :
      (libc : Libc D) (f : Flag) (name value : Bytes) (p : Parser D)
      → IsAlone f p.flags
      → find_flag name p.flags ≡ none
      → Left libc f
          ((name, value) ∷ [])
          p
          (record p { unknown_flags = p.unknown_flags ++ name ∷ [] })
  unfolding field_of count_unknown
  unknown-Left libc f name value p alone e = record {
    flags = refl;
    unknown = rw (count_unknown, e) (omega (arith, length-append p.unknown_flags (name ∷ [])));
    field = elim (Bool-cases (equal name f.name)) [
      | inl same ↦ absurd (ground (arith, sym e ∙ alone.found name same))
      | inr other ↦ rw other refl
    ];
  }

  -- A check that fails is a write out of bounds, or the end of the program.
  failed-Ends :
      (P : Parser D → Type 0) (O : Type 0) (v : Value D) (p : Parser D)
      → O
      → Ends P O (elim v [ bool_value true ↦ out_of_bounds | _ ↦ die check_failed p ])
  unfolding die
  failed-Ends P O (bool_value true) p h = h
  failed-Ends P O (bool_value false) p h = tt
  failed-Ends P O (mode_value m) p h = tt
  failed-Ends P O (string_value m) p h = tt
  failed-Ends P O (int_value m) p h = tt
  failed-Ends P O (double_value m) p h = tt
  failed-Ends P O (uptr_value m) p h = tt
  failed-Ends P O (s64_value m) p h = tt

  check_index-Ends :
      (P : Parser D → Type 0) (n max : ℕ) (p p' : Parser D)
      → P p'
      → Ends P (max ≤ n) (check_index n max p p')
  unfolding check_index
  check_index-Ends P n max p p' h = elim (Bool-cases (ltb n max)) [
    | inl e ↦ rw e h
    | inr e ↦ rw e (failed-Ends P (max ≤ n) (p.fields continue_on_error) p (ground (arith, e)))
  ]

  add-Ends :
      (libc : Libc D) (f : Flag) (name value : Bytes) (p : Parser D)
      → IsAlone f p.flags
      → find_flag name p.flags ≡ none
      → Ends
          (Left libc f ((name, value) ∷ []) p)
          (max_unknown_flags < length p.unknown_flags + count_unknown p.flags ((name, value) ∷ []))
          (add name p)
  unfolding add count_unknown max_unknown_flags
  add-Ends libc f name value p alone e =
      let p' = record p { unknown_flags = p.unknown_flags ++ name ∷ [] } in
      Ends-imp (Left libc f ((name, value) ∷ []) p) (Left libc f ((name, value) ∷ []) p)
        (max_unknown_flags ≤ length p.unknown_flags) _
        (check_index (length p.unknown_flags) max_unknown_flags p p') (λ a l. l)
        (λ full. rw (count_unknown, e) (omega (arith, full)))
        (check_index-Ends (Left libc f ((name, value) ∷ []) p) (length p.unknown_flags)
          max_unknown_flags p p' (unknown-Left libc f name value p alone e))

  set_flag-Ends :
      (libc : Libc D) (f : Flag) (name value : Bytes) (p : Parser D)
      → IsAlone f p.flags
      → Ends
          (Left libc f ((name, value) ∷ []) p)
          (max_unknown_flags < length p.unknown_flags + count_unknown p.flags ((name, value) ∷ []))
          (set_flag libc (name, value) p)
  set_flag-Ends libc f name value p alone = elim (Option-cases (find_flag name p.flags)) [
    | inr (g, e) ↦
        let (ok, v) = parse libc g.type value (p.fields g.field) in
        let p' = record p { fields = update p.fields g.field v } in
        rw (set_flag-known libc g name value p e) (
          Ends-checked (Left libc f ((name, value) ∷ []) p)
            (max_unknown_flags
              < length p.unknown_flags + count_unknown p.flags ((name, value) ∷ []))
            ok p' parsing_failed p' (known-Left libc f g name value p alone e))
    | inl e ↦ rw (set_flag-unknown libc name value p e) (add-Ends libc f name value p alone e)
  ]

  -- A sequence of settings, at any flag that no other shares a name or a field with.
  pub set_all-Ends :
      (libc : Libc D) (f : Flag) (settings : List (Bytes × Bytes)) (p : Parser D)
      → IsAlone f p.flags
      → Ends
          (Left libc f settings p)
          (max_unknown_flags < length p.unknown_flags + count_unknown p.flags settings)
          (set_all libc settings p)
  unfolding set_all field_of
  set_all-Ends libc f [] p alone = record {
    flags = refl;
    field = refl;
    unknown = omega (arith, count_unknown-nil p.flags);
  }
  set_all-Ends libc f ((name, value) ∷ r) p alone =
      let one = count_unknown-cons p.flags name value r in
      Ends-bind (Left libc f ((name, value) ∷ []) p) (Left libc f ((name, value) ∷ r) p) _ _
        (set_flag libc (name, value) p) (set_all libc r) (set_flag-Ends libc f name value p alone)
        (λ over. omega (arith, over, one))
        (λ p' l.
          Ends-imp (Left libc f r p') (Left libc f ((name, value) ∷ r) p) _ _ (set_all libc r p')
            (λ p'' l'. record {
              flags = l'.flags ∙ l.flags;
              field = l'.field ∙ ap (field_of libc f r) l.field;
              unknown =
                  omega (arith, l'.unknown, l.unknown, one, ap (λ fs. count_unknown fs r) l.flags);
            })
            (λ over. omega (arith, over, l.unknown, one, ap (λ fs. count_unknown fs r) l.flags))
            (set_all-Ends libc f r p' (subst (IsAlone f) (sym l.flags) alone)))

  pub field_of-HasType :
      (libc : Libc D) (f : Flag) (settings : List (Bytes × Bytes)) (old : Value D)
      → HasType f.type old
      → HasType f.type (field_of libc f settings old)
  unfolding field_of
  field_of-HasType libc f [] old h = h
  field_of-HasType libc f ((name, value) ∷ r) old h =
      field_of-HasType libc f r _ (chosen (equal name f.name))
    where
      chosen : (b : Bool) → HasType f.type (if b then (parse libc f.type value old).1 else old)
      chosen true = parse-HasType libc f.type value old h
      chosen false = h
