-- ===== src/Flags/Parser.antt =====
-- src/parse_flags.cpp: `FlagParser` and `UnknownFlags`. The string from `buf_ + pos_` on is the list of
-- the bytes that are left, and `buf_[pos_]` is its first byte, or the zero behind the last. A flag's
-- `handler` is the type of its value and the index of its field in `CptFlags`, see Setup.antt. Output
-- is left out. What ends the program, or a write out of bounds, is a result of its own.
use otf_cpt.Common.{
  ℕ, zero, suc, Bool, true, not, ◌&&◌, ◌||◌, Option, none, some, List, [], ◌∷◌, ◌++◌, ◌==◌, ltb,
  length, if◌then◌else◌, update, ◌⊎◌, inl, inr,
}
use otf_cpt.Common.Int.{ℤ, pos}
use otf_cpt.Flags.Values.{Bytes, Libc, FlagType, Value, bool_value, int_value, equal, parse}

pub record Flag : Type 0 where
  pub name : Bytes
  pub type : FlagType
  pub field : ℕ

-- `FlagParser` without its buffer, `UnknownFlags`, and the fields of `CptFlags`. A pointer to a
-- string is the string: the parser keeps the strings in `pointers` until it is destroyed.
pub record Parser (D : Type 0) : Type 0 where
  pub flags : List Flag
  pub unknown_flags : List Bytes
  pub fields : ℕ → Value D

pub data Error : Type 0 where
  expected_equals unterminated expected_separator parsing_failed check_failed : Error

-- `abort()`, or `exit` with a code
pub data Exit : Type 0 where
  aborted : Exit
  exited : ℤ → Exit

-- What a call comes to; `endless` is a loop that does not end in the rounds it is given.
pub data Outcome (A : Type 0) : Type 0 where
  done : A → Outcome A
  died : Error → Exit → Outcome A
  out_of_bounds : Outcome A
  endless : Outcome A

infixl 20 ◌>>=◌
abbrev pub ◌>>=◌ : {A B : Type 0} → Outcome A → (A → Outcome B) → Outcome B
done a >>= k = k a
died e x >>= k = died e x
out_of_bounds >>= k = out_of_bounds
endless >>= k = endless

abbrev pub abort_on_error : ℕ
abort_on_error = 11

abbrev pub continue_on_error : ℕ
continue_on_error = 12

abbrev pub exitcode : ℕ
exitcode = 14

unfoldable pub max_flags : ℕ
max_flags = 200

unfoldable pub max_unknown_flags : ℕ
max_unknown_flags = 20

unfoldable pub is_space : ℕ → Bool
is_space c = c == b' ' || c == b',' || c == b':' || c == b'\n' || c == b'\t' || c == b'\r'

-- `buf_[pos_]`
unfoldable pub peek : Bytes → ℕ
peek [] = 0
peek (c ∷ r) = c

-- `pos_ + 1`
unfoldable pub tail : Bytes → Bytes
tail [] = []
tail (c ∷ r) = r

unfoldable pub skip_whitespace : Bytes → Bytes
skip_whitespace [] = []
skip_whitespace (c ∷ r) = let rest = skip_whitespace r in if is_space c then rest else c ∷ r

-- `while (buf_[pos_] != 0 && go) ++pos_;`: how many bytes are passed, and those that are left.
unfoldable pub advance : (ℕ → Bool) → Bytes → ℕ × Bytes
advance go [] = (0, [])
advance go (c ∷ r) =
    let (n, rest) = advance go r in if not (c == 0) && go c then (suc n, rest) else (0, c ∷ r)

unfoldable pub ll_strndup : Bytes → ℕ → Bytes
ll_strndup s zero = []
ll_strndup [] (suc n) = []
ll_strndup (c ∷ s) (suc n) = let rest = ll_strndup s n in if c == 0 then [] else c ∷ rest

-- What `parse_flag` reads before it calls `run_handler`: name, value, and the bytes that are left.
unfoldable pub read_value : Bytes → (Error ⊎ (Bytes × Bytes))
read_value s =
    if peek s == b'\'' || peek s == b'"'
    then (let quote = peek s in
        let (n, rest) = advance (λ c. not (c == quote)) (tail s) in
        if peek rest == 0 then inl unterminated else inr (ll_strndup (tail s) n, tail rest))
    else (let (n, rest) = advance (λ c. not (is_space c)) s in
        if not (peek rest == 0) && not (is_space (peek rest))
        then inl expected_separator
        else inr (ll_strndup s n, rest))

unfoldable pub read_flag : Bytes → (Error ⊎ ((Bytes × Bytes) × Bytes))
read_flag s =
    let (n, rest) = advance (λ c. not (c == b'=') && not (is_space c)) s in
    if not (peek rest == b'=') then inl expected_equals else elim (read_value (tail rest)) [
      | inl e ↦ inl e
      | inr (value, left) ↦ inr ((ll_strndup s n, value), left)
    ]

-- The loop of `run_handler`.
unfoldable pub find_flag : Bytes → List Flag → Option Flag
find_flag name [] = none
find_flag name (f ∷ r) = if equal name f.name then some f else find_flag name r

module _ {D : Type 0} where
  -- `Die`
  unfoldable pub die : {A : Type 0} → Error → Parser D → Outcome A
  die e p = died e (elim (p.fields abort_on_error) [
    | bool_value true ↦ aborted
    | _ ↦ elim (p.fields exitcode) [ int_value n ↦ exited n | _ ↦ exited (pos 0) ]
  ])

  -- A `CHECK` that the next index of an array is below its length, and the write to the array.
  unfoldable pub check_index : ℕ → ℕ → Parser D → Parser D → Outcome (Parser D)
  check_index n max p p' = if ltb n max then done p' else elim (p.fields continue_on_error) [
    | bool_value true ↦ out_of_bounds
    | _ ↦ die check_failed p
  ]

  -- `UnknownFlags::Add`
  unfoldable pub add : Bytes → Parser D → Outcome (Parser D)
  add name p =
      check_index (length p.unknown_flags) max_unknown_flags p
        (record p { unknown_flags = p.unknown_flags ++ name ∷ [] })

  unfoldable pub register_handler : Flag → Parser D → Outcome (Parser D)
  register_handler f p =
      check_index (length p.flags) max_flags p (record p { flags = p.flags ++ f ∷ [] })

  module _ (libc : Libc D) where
    unfoldable pub run_handler : Bytes → Bytes → Parser D → Outcome (Bool × Parser D)
    run_handler name value p = elim (find_flag name p.flags) [
      | some f ↦
          let (ok, v) = parse libc f.type value (p.fields f.field) in
          done (ok, record p { fields = update p.fields f.field v })
      | none ↦ (do p' ← add name p; done (true, p'))
    ]

    -- The last lines of `parse_flag`.
    unfoldable pub set_flag : Bytes × Bytes → Parser D → Outcome (Parser D)
    set_flag (name, value) p = do
      (res, p') ← run_handler name value p
      if res then done p' else die parsing_failed p'

    -- The loop of `parse_flags`, for at most `fuel` flags.
    unfoldable pub parse_flags : ℕ → Bytes → Parser D → Outcome (Parser D)
    parse_flags zero s p = endless
    parse_flags (suc fuel) s p =
        let s' = skip_whitespace s in
        if peek s' == 0 then done p else elim (read_flag s') [
          | inl e ↦ die e p
          | inr (setting, rest) ↦ (do p' ← set_flag setting p; parse_flags fuel rest p')
        ]

    -- `ParseString`: `none` is a null pointer. Each flag has an `=` of its own in the text.
    unfoldable pub parse_string : Option Bytes → Parser D → Outcome (Parser D)
    parse_string none p = done p
    parse_string (some s) p = parse_flags (suc (length s)) s p

    unfoldable pub parse_string_from_env : Bytes → Parser D → Outcome (Parser D)
    parse_string_from_env name p = parse_string (libc.getenv name) p
