-- ===== src/Flags/Whole.antt =====
-- The parser on a whole text of the grammar.
use otf_cpt.Common.{
  ℕ, zero, suc, ◌≤◌, ◌<◌, ◌≡◌, refl, sym, ◌∙◌, Option, some, List, ◌∷◌, ◌++◌, length, length-append,
  arith,
}
use otf_cpt.Flags.Values.{Bytes, Libc}
use otf_cpt.Flags.Parser.{
  Parser, Error, expected_equals, unterminated, Outcome, done, died, out_of_bounds, endless, ◌>>=◌,
  set_flag, parse_flags, parse_string,
}
use otf_cpt.Flags.Grammar.{
  Valued, quoted, plain, Reading, finished, setting, no_equals, no_quote, set_all, finish,
}
use otf_cpt.Flags.Reads.{
  read_value-Valued, read_unquoted, read_flag-value, read_flag-broken, read_flag-no_equals,
  name_first, round_end, round_error, round_flag,
}

pub Valued-length : {v text rest : Bytes} → Valued v text rest → length rest ≤ length text
Valued-length (quoted {quote = q} v rest _ _) = omega (arith, length-append (q ∷ v) (q ∷ rest))
Valued-length (plain v rest _ _ _ _) = omega (arith, length-append v rest)

-- Each setting has an `=` of its own.
Reading-length :
    {text : Bytes} {settings : List (Bytes × Bytes)} {end : Option Error}
    → Reading text settings end
    → length settings ≤ length text
Reading-length (finished spaces rest h e) = omega arith
Reading-length (setting spaces name value text rest h k v more) = omega (
  arith,
  length-append spaces (name ++ b'=' ∷ text),
  length-append name (b'=' ∷ text),
  Valued-length v,
  Reading-length more,
)
Reading-length (no_equals spaces name rest _ _ _ _ _ _) = omega arith
Reading-length (no_quote spaces name v rest _ _ _ _ _) = omega arith

module _ {D : Type 0} (libc : Libc D) where
  bind_assoc :
      {A B C : Type 0} (m : Outcome A) (f : A → Outcome B) (g : B → Outcome C)
      → (m >>= f) >>= g ≡ m >>= (λ a. f a >>= g)
  bind_assoc (done a) f g = refl
  bind_assoc (died e x) f g = refl
  bind_assoc out_of_bounds f g = refl
  bind_assoc endless f g = refl

  bind-ext :
      {A B : Type 0} (m : Outcome A) (f g : A → Outcome B)
      → ((a : A) → f a ≡ g a)
      → m >>= f ≡ m >>= g
  bind-ext (done a) f g h = h a
  bind-ext (died e x) f g h = refl
  bind-ext out_of_bounds f g h = refl
  bind-ext endless f g h = refl

  parse_flags-Reading :
      {text : Bytes} {settings : List (Bytes × Bytes)} {end : Option Error}
      → Reading text settings end
      → (fuel : ℕ) (p : Parser D) → length settings < fuel
      → parse_flags libc fuel text p ≡ set_all libc settings p >>= finish end
  unfolding set_all finish
  parse_flags-Reading r zero p lt = absurd (omega arith)
  parse_flags-Reading (finished spaces rest h e) (suc fuel) p lt =
      round_end libc fuel spaces rest p h e
  parse_flags-Reading (setting spaces name value text rest h k v more) (suc fuel) p lt =
      round_flag libc fuel spaces (name ++ b'=' ∷ text) rest (name, value) p h
        (name_first name text k) (read_flag-value name text value rest k (read_value-Valued v))
      ∙ bind-ext (set_flag libc (name, value) p) _ _
          (λ p'. parse_flags-Reading more fuel p' (omega arith))
      ∙ sym (bind_assoc (set_flag libc (name, value) p) _ _)
  parse_flags-Reading (no_equals spaces name rest h k stop e s z) (suc fuel) p lt =
      round_error libc fuel spaces (name ++ rest) expected_equals p h (s, z)
        (read_flag-no_equals name rest k stop e)
  parse_flags-Reading (no_quote {quote = quote} spaces name v rest h k q w e) (suc fuel) p lt =
      round_error libc fuel spaces (name ++ b'=' ∷ quote ∷ (v ++ rest)) unterminated p h
        (name_first name (quote ∷ (v ++ rest)) k)
        (read_flag-broken name (quote ∷ (v ++ rest)) unterminated k (read_unquoted v rest q w e))

  -- A string of the grammar does what its settings do, one after the other, and at its end goes on or
  -- dies with the error at which the string breaks off.
  pub parse_string-Reading :
      {text : Bytes} {settings : List (Bytes × Bytes)} {end : Option Error} (p : Parser D)
      → Reading text settings end
      → parse_string libc (some text) p ≡ set_all libc settings p >>= finish end
  unfolding parse_string
  parse_string-Reading p r = parse_flags-Reading r _ p (omega (arith, Reading-length r))
