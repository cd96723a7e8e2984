-- ===== src/Flags/Startup.antt =====
-- `InitializeCptFlags`: what the fields hold when it returns.
pub mod Table
use otf_cpt.Common.{
  ℕ, zero, suc, ◌+◌, ◌≤◌, ◌<◌, ◌≡◌, refl, sym, ap, ◌∙◌, subst, inl, inr, Bool, true, false, Option,
  none, some, List, [], ◌∷◌, ◌++◌, if◌then◌else◌, length, get_elem?, arith, Option-cases,
}
use otf_cpt.Flags.Values.{Bytes, Libc, Value, equal, parse}
use otf_cpt.Flags.Parser.{
  Parser, Flag, Error, Outcome, done, died, out_of_bounds, endless, ◌>>=◌, die, max_unknown_flags,
  find_flag, parse_string, parse_string_from_env,
}
use otf_cpt.Flags.Setup.{
  System, Row, CptFlags, analysis_flags, legacy_analysis_flags, table, set_defaults,
  register_cpt_flags, choose_output, parse_environment, parse_all, initialize_cpt_flags,
}
use otf_cpt.Flags.Grammar.{Reading, set_all, finish}
use otf_cpt.Flags.Whole.{parse_string-Reading}
use otf_cpt.Flags.Ends.{
  Ends, Ends-bind, Ends-imp, count_unknown, count_unknown-nil, count_unknown-cons,
}
use otf_cpt.Flags.Typed.{HasType}
use otf_cpt.Flags.Fields.{field_of, IsAlone, Left, set_all-Ends, field_of-HasType}
use otf_cpt.Flags.Startup.Table.{
  flag_of, table_flags, table-registered, table-IsAlone, set_defaults-row, table-HasType,
}

-- The settings of a text, or of no text.
abbrev pub Reads : Option Bytes → List (Bytes × Bytes) → Type 0
Reads none settings = settings ≡ []
Reads (some text) settings = (end : Option Error) × Reading text settings end

-- The environment variable that is read.
unfoldable pub chosen : {D : Type 0} → Libc D → Option Bytes
chosen libc = elim (libc.getenv analysis_flags) [
  | some text ↦ some text
  | none ↦ libc.getenv legacy_analysis_flags
]

count_unknown-append :
    (flags : List Flag) (s r : List (Bytes × Bytes))
    → count_unknown flags (s ++ r) ≡ count_unknown flags s + count_unknown flags r
count_unknown-append flags [] r = omega (arith, count_unknown-nil flags)
count_unknown-append flags ((name, value) ∷ s) r = omega (
  arith,
  count_unknown-cons flags name value (s ++ r),
  count_unknown-cons flags name value s,
  count_unknown-append flags s r,
)

module _ {D : Type 0} (libc : Libc D) where
  field_of-append :
      (f : Flag) (s r : List (Bytes × Bytes)) (old : Value D)
      → field_of libc f (s ++ r) old ≡ field_of libc f r (field_of libc f s old)
  unfolding field_of
  field_of-append f [] r old = refl
  field_of-append f ((name, value) ∷ s) r old = field_of-append f s r _

  Left-append :
      (f : Flag) (s r : List (Bytes × Bytes)) (p p' p'' : Parser D)
      → Left libc f s p p'
      → Left libc f r p' p''
      → Left libc f (s ++ r) p p''
  Left-append f s r p p' p'' l l' = record {
    flags = l'.flags ∙ l.flags;
    field =
        l'.field ∙ ap (field_of libc f r) l.field ∙ sym (field_of-append f s r (p.fields f.field));
    unknown = omega (
      arith,
      l'.unknown,
      l.unknown,
      count_unknown-append p.flags s r,
      ap (λ fs. count_unknown fs r) l.flags,
    );
  }

  finish-Ends :
      (P : Parser D → Type 0) (O : Type 0) (end : Option Error) (p : Parser D)
      → P p
      → Ends P O (finish end p)
  unfolding finish die
  finish-Ends P O none p h = h
  finish-Ends P O (some e) p h = tt

  parse_string-Ends :
      (f : Flag) (text : Option Bytes) (s : List (Bytes × Bytes)) (p : Parser D)
      → Reads text s
      → IsAlone f p.flags
      → Ends
          (Left libc f s p)
          (max_unknown_flags < length p.unknown_flags + count_unknown p.flags s)
          (parse_string libc text p)
  unfolding parse_string field_of
  parse_string-Ends f none s p e alone =
      rw e
        (record { flags = refl; field = refl; unknown = omega (arith, count_unknown-nil p.flags) })
  parse_string-Ends f (some text) s p (end, r) alone = rw (parse_string-Reading libc p r) (
      Ends-bind (Left libc f s p) (Left libc f s p) _ _ (set_all libc s p) (finish end)
        (set_all-Ends libc f s p alone) (λ over. over)
        (λ p' l. finish-Ends (Left libc f s p) _ end p' l))

  parse_environment-chosen :
      (system : System) (minus_one : D) (p : Parser D)
      → parse_environment libc system minus_one p ≡ parse_string libc (chosen libc) p
  unfolding parse_environment parse_string_from_env chosen
  parse_environment-chosen system minus_one p = elim (Option-cases (libc.getenv analysis_flags)) [
    | inl e ↦ rw (parse_environment, chosen, e) refl
    | inr (text, e) ↦ rw (parse_environment, chosen, e) (ap (λ t. parse_string libc t p) e)
  ]

  parse_all-Ends :
      (f : Flag) (system : System) (minus_one : D) (s r : List (Bytes × Bytes)) (p : Parser D)
      → Reads system.options s
      → Reads (chosen libc) r
      → IsAlone f p.flags
      → Ends
          (Left libc f (s ++ r) p)
          (max_unknown_flags < length p.unknown_flags + count_unknown p.flags (s ++ r))
          (parse_all libc system minus_one p)
  unfolding parse_all
  parse_all-Ends f system minus_one s r p h k alone =
      let both = count_unknown-append p.flags s r in
      Ends-bind (Left libc f s p) (Left libc f (s ++ r) p) _ _ (parse_string libc system.options p)
        (parse_environment libc system minus_one) (parse_string-Ends f system.options s p h alone)
        (λ over. omega (arith, over, both))
        (λ p' l. rw (parse_environment-chosen system minus_one p') (
          Ends-imp (Left libc f r p') (Left libc f (s ++ r) p) _ _
            (parse_string libc (chosen libc) p') (λ p'' l'. Left-append f s r p p' p'' l l')
            (λ over. omega (arith, over, l.unknown, both, ap (λ fs. count_unknown fs r) l.flags))
            (parse_string-Ends f (chosen libc) r p' k (subst (IsAlone f) (sym l.flags) alone))))

  -- Each field: its default, and then each setting of its name in turn.
  pub record HasValue (minus_one : D) (settings : List (Bytes × Bytes)) (i : ℕ) (row : Row D)
      (f : CptFlags D) : Type 0 where
    pub value : f.parser.fields i ≡ field_of libc (flag_of row i) settings row.default
    pub typed : HasType row.type (f.parser.fields i)

  field_is :
      (p p' : Parser D) (s r : List (Bytes × Bytes)) (i : ℕ) (row : Row D)
      → Left libc (flag_of row i) (s ++ r) p p'
      → p.fields i ≡ row.default
      → p'.fields i ≡ field_of libc (flag_of row i) (s ++ r) row.default
  unfolding flag_of
  field_is p p' s r i row l e = l.field ∙ ap (field_of libc (flag_of row i) (s ++ r)) e

  -- `InitializeCptFlags`, called for the first time, ends. If it returns, then the field of each row
  -- of the table has the type of its flag, and the value of its default after each setting of the
  -- flag's name in turn: those of `__cpt_default_options` first, then those of the environment variable. It
  -- writes out of bounds only if more than 20 of the settings have a name that no flag has.
  pub initialize_cpt_flags-Ends :
      (system : System) (minus_one : D) (raw : ℕ → Value D) (s r : List (Bytes × Bytes)) (i : ℕ)
      (row : Row D)
      → Reads system.options s
      → Reads (chosen libc) r
      → get_elem? (table minus_one) i ≡ some row
      → Ends
          (HasValue minus_one (s ++ r) i row)
          (max_unknown_flags < count_unknown (table_flags minus_one) (s ++ r))
          (initialize_cpt_flags libc system minus_one raw none)
  unfolding initialize_cpt_flags flag_of
  initialize_cpt_flags-Ends system minus_one raw s r i row h k at =
      let fields = set_defaults (table minus_one) raw in
      let p : Parser D = record {
        flags = table_flags minus_one;
        unknown_flags = [];
        fields = fields;
      } in
      let default = set_defaults-row (table minus_one) raw i row at in
      rw (table-registered minus_one fields) (
        Ends-bind (Left libc (flag_of row i) (s ++ r) p) (HasValue minus_one (s ++ r) i row) _
          (max_unknown_flags < count_unknown (table_flags minus_one) (s ++ r))
          (parse_all libc system minus_one p) _
          (parse_all-Ends (flag_of row i) system minus_one s r p h k
            (table-IsAlone minus_one i row at))
          (λ over. omega (arith, over))
          (λ p' l.
            let is = field_is p p' s r i row l default in
            record {
              value = is;
              typed = subst (HasType row.type) (sym is) (
                  field_of-HasType libc (flag_of row i) (s ++ r) row.default
                    (table-HasType minus_one i row at));
            }))
