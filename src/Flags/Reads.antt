-- ===== src/Flags/Reads.antt =====
-- The parser on a text of the grammar.
use otf_cpt.Common.{
  ℕ, suc, ◌≡◌, refl, ap, ◌∙◌, inl, inr, Bool, true, false, not, ◌&&◌, ◌||◌, [], ◌∷◌, ◌++◌, ◌==◌,
  length, arith,
}
use otf_cpt.Flags.Values.{Bytes, Libc}
use otf_cpt.Flags.Parser.{
  Parser, Error, expected_equals, unterminated, done, ◌>>=◌, die, set_flag, is_space, peek, tail,
  skip_whitespace, advance, ll_strndup, read_value, read_flag, parse_flags,
}
use otf_cpt.Flags.Grammar.{
  passes, in_name, in_quotes, in_plain, AllPass, AreSpaces, IsQuote, single, double, Valued, quoted,
  plain,
}

advance-append :
    (go : ℕ → Bool) (v rest : Bytes)
    → AllPass go v
    → passes go (peek rest) ≡ false
    → advance go (v ++ rest) ≡ (length v, rest)
unfolding advance passes peek
advance-append go [] [] h stop = refl
advance-append go [] (c ∷ r) h stop = rw stop refl
advance-append go (c ∷ v) rest (h, hs) stop = rw (h, advance-append go v rest hs stop) refl

passes-nonzero : (go : ℕ → Bool) (c : ℕ) → passes go c ≡ true → (c == 0) ≡ false
unfolding passes
passes-nonzero go c h = ground (arith, h)

ll_strndup-append :
    (go : ℕ → Bool) (v rest : Bytes) → AllPass go v → ll_strndup (v ++ rest) (length v) ≡ v
unfolding ll_strndup
ll_strndup-append go [] rest h = refl
ll_strndup-append go (c ∷ v) rest (h, hs) =
    rw (passes-nonzero go c h, ll_strndup-append go v rest hs) refl

skip_whitespace-append :
    (spaces rest : Bytes)
    → AreSpaces spaces
    → is_space (peek rest) ≡ false
    → skip_whitespace (spaces ++ rest) ≡ rest
unfolding skip_whitespace peek
skip_whitespace-append [] [] h stop = refl
skip_whitespace-append [] (c ∷ r) h stop = rw stop refl
skip_whitespace-append (c ∷ v) rest (h, hs) stop =
    rw (h, skip_whitespace-append v rest hs stop) refl

quote-true : {quote : ℕ} → IsQuote quote → (quote == b'\'' || quote == b'"') ≡ true
quote-true single = refl
quote-true double = refl

quote-nonzero : {quote : ℕ} → IsQuote quote → (quote == 0) ≡ false
quote-nonzero single = refl
quote-nonzero double = refl

passes-quote : (quote : ℕ) → passes (in_quotes quote) quote ≡ false
unfolding passes in_quotes
passes-quote quote = ground arith

advance_quotes :
    (quote : ℕ) (v rest : Bytes)
    → AllPass (in_quotes quote) v
    → passes (in_quotes quote) (peek rest) ≡ false
    → advance (λ c. not (c == quote)) (v ++ rest) ≡ (length v, rest)
unfolding in_quotes
advance_quotes quote v rest h stop = advance-append (in_quotes quote) v rest h stop

read_quoted :
    {quote : ℕ} (v rest : Bytes)
    → IsQuote quote
    → AllPass (in_quotes quote) v
    → read_value (quote ∷ v ++ quote ∷ rest) ≡ inr (v, rest)
unfolding read_value peek tail
read_quoted {quote = quote} v rest q h =
    let passed = advance_quotes quote v (quote ∷ rest) h (passes-quote quote) in
    let copied = ll_strndup-append (in_quotes quote) v (quote ∷ rest) h in
    rw (quote-true q, passed, copied, quote-nonzero q) refl

pub read_unquoted :
    {quote : ℕ} (v rest : Bytes)
    → IsQuote quote
    → AllPass (in_quotes quote) v
    → peek rest ≡ 0
    → read_value (quote ∷ v ++ rest) ≡ inl unterminated
unfolding read_value peek tail passes
read_unquoted {quote = quote} v rest q h e =
    let passed = advance_quotes quote v rest h (rw e refl) in rw (quote-true q, passed, e) refl

read_plain :
    (v rest : Bytes)
    → AllPass in_plain v
    → passes in_plain (peek rest) ≡ false
    → (peek (v ++ rest) == b'\'') ≡ false
    → (peek (v ++ rest) == b'"') ≡ false
    → read_value (v ++ rest) ≡ inr (v, rest)
unfolding read_value in_plain passes
read_plain v rest h stop s d =
    let passed = advance-append in_plain v rest h stop in
    let copied = ll_strndup-append in_plain v rest h in rw (s, d, passed, stop, copied) refl

pub read_value-Valued : {v s rest : Bytes} → Valued v s rest → read_value s ≡ inr (v, rest)
read_value-Valued (quoted v rest q h) = read_quoted v rest q h
read_value-Valued (plain v rest h stop s d) = read_plain v rest h stop s d

advance_name :
    (name rest : Bytes)
    → AllPass in_name name
    → passes in_name (peek rest) ≡ false
    → advance (λ c. not (c == b'=') && not (is_space c)) (name ++ rest) ≡ (length name, rest)
unfolding in_name
advance_name name rest h stop = advance-append in_name name rest h stop

equals_stop : (text : Bytes) → passes in_name (peek (b'=' ∷ text)) ≡ false
unfolding passes in_name peek
equals_stop text = refl

pub read_flag-value :
    (name text v left : Bytes)
    → AllPass in_name name
    → read_value text ≡ inr (v, left)
    → read_flag (name ++ b'=' ∷ text) ≡ inr ((name, v), left)
unfolding read_flag peek tail
read_flag-value name text v left h e =
    let passed = advance_name name (b'=' ∷ text) h (equals_stop text) in
    let copied = ll_strndup-append in_name name (b'=' ∷ text) h in
    let copied_name =
      ap (λ (a : ℕ × Bytes). ll_strndup (name ++ b'=' ∷ text) a.0) passed ∙ copied in
    rw (passed, e) (ap (λ (n : Bytes). inr ((n, v), left)) copied_name)

pub read_flag-broken :
    (name text : Bytes) (error : Error)
    → AllPass in_name name
    → read_value text ≡ inl error
    → read_flag (name ++ b'=' ∷ text) ≡ inl error
unfolding read_flag peek tail
read_flag-broken name text error h e =
    let passed = advance_name name (b'=' ∷ text) h (equals_stop text) in rw (passed, e) refl

pub read_flag-no_equals :
    (name rest : Bytes)
    → AllPass in_name name
    → passes in_name (peek rest) ≡ false
    → (peek rest == b'=') ≡ false
    → read_flag (name ++ rest) ≡ inl expected_equals
unfolding read_flag
read_flag-no_equals name rest h stop e =
    let passed = advance_name name rest h stop in rw (passed, e) refl

name_byte : (c : ℕ) → passes in_name c ≡ true → is_space c ≡ false
unfolding passes in_name
name_byte c h = ground (arith, h)

-- The first byte of a flag is no space, and not the end.
pub name_first :
    (name text : Bytes)
    → AllPass in_name name
    → (is_space (peek (name ++ b'=' ∷ text)) ≡ false) × ((peek (name ++ b'=' ∷ text) == 0) ≡ false)
unfolding peek is_space
name_first [] text h = (refl, refl)
name_first (c ∷ name) text (h, hs) = (name_byte c h, passes-nonzero in_name c h)

module _ {D : Type 0} (libc : Libc D) where
  -- One round of the loop of `parse_flags`.
  pub round_end :
      (fuel : ℕ) (spaces rest : Bytes) (p : Parser D)
      → AreSpaces spaces
      → peek rest ≡ 0
      → parse_flags libc (suc fuel) (spaces ++ rest) p ≡ done p
  unfolding parse_flags is_space
  round_end fuel spaces rest p h e =
      let skipped = skip_whitespace-append spaces rest h (rw e refl) in rw (skipped, e) refl

  pub round_error :
      (fuel : ℕ) (spaces text : Bytes) (error : Error) (p : Parser D)
      → AreSpaces spaces
      → (is_space (peek text) ≡ false) × ((peek text == 0) ≡ false)
      → read_flag text ≡ inl error
      → parse_flags libc (suc fuel) (spaces ++ text) p ≡ die error p
  unfolding parse_flags
  round_error fuel spaces text error p h (s, z) e =
      let skipped = skip_whitespace-append spaces text h s in rw (skipped, z, e) refl

  pub round_flag :
      (fuel : ℕ) (spaces text left : Bytes) (item : Bytes × Bytes) (p : Parser D)
      → AreSpaces spaces
      → (is_space (peek text) ≡ false) × ((peek text == 0) ≡ false)
      → read_flag text ≡ inr (item, left)
      → parse_flags libc (suc fuel) (spaces ++ text) p
        ≡ set_flag libc item p >>= parse_flags libc fuel left
  unfolding parse_flags
  round_flag fuel spaces text left item p h (s, z) e =
      let skipped = skip_whitespace-append spaces text h s in rw (skipped, z, e) refl
