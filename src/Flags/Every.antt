-- ===== src/Flags/Every.antt =====
-- How a text is split into the parts of the grammar.
use otf_cpt.Common.{
  ℕ, zero, suc, ◌≤◌, ◌<◌, ◌≡◌, refl, sym, ap, ◌∙◌, subst, inl, inr, Bool, true, false, Option, none,
  some, List, [], ◌∷◌, ◌++◌, ◌==◌, All, length, length-append, arith, Bool-cases, ==_iff,
}
use otf_cpt.Flags.Values.{Bytes, Libc}
use otf_cpt.Flags.Parser.{
  Parser, Error, expected_equals, unterminated, ◌>>=◌, is_space, peek, parse_string,
}
use otf_cpt.Flags.Grammar.{
  passes, in_name, in_quotes, in_plain, AllPass, AreSpaces, IsQuote, single, double, Valued, quoted,
  plain, Reading, finished, setting, no_equals, no_quote, set_all, finish,
}
use otf_cpt.Flags.Whole.{Valued-length, parse_string-Reading}

-- The bytes before the first that fails a test.
record Split (t : ℕ → Bool) (s : Bytes) : Type 0 where
  before : Bytes
  after : Bytes
  shape : s ≡ before ++ after
  all : All (λ c. t c ≡ true) before
  stops : t (peek after) ≡ false

split : (t : ℕ → Bool) → t 0 ≡ false → (s : Bytes) → Split t s
unfolding peek
split t z [] = record { before = []; after = []; shape = refl; all = tt; stops = z }
split t z (c ∷ s) = elim (Bool-cases (t c)) [
  | inl e ↦
      let rest = split t z s in
      record {
        before = c ∷ rest.before;
        after = rest.after;
        shape = ap (λ r. c ∷ r) rest.shape;
        all = (e, rest.all);
        stops = rest.stops;
      }
  | inr e ↦ record { before = []; after = c ∷ s; shape = refl; all = tt; stops = e }
]

passes-zero : (go : ℕ → Bool) → passes go 0 ≡ false
unfolding passes
passes-zero go = refl

space-zero : is_space 0 ≡ false
unfolding is_space
space-zero = refl

peek-cons : (s : Bytes) (c : ℕ) → peek s ≡ c → (c == 0) ≡ false → (r : Bytes) × (s ≡ c ∷ r)
unfolding peek
peek-cons [] c e z = absurd (ground (arith, e, z))
peek-cons (d ∷ r) c e z = (r, ap (λ k. k ∷ r) e)

-- The text after an equals sign begins with a value, or with a quote that does not end.
data Follows (text : Bytes) : Type 0 where
  value : (v rest : Bytes) → Valued v text rest → Follows text
  open_quote :
      {quote : ℕ} (v rest : Bytes)
      → IsQuote quote
      → AllPass (in_quotes quote) v
      → peek rest ≡ 0
      → text ≡ quote ∷ (v ++ rest)
      → Follows text

at_quote : (quote c : ℕ) → (c == 0) ≡ false → passes (in_quotes quote) c ≡ false → (c ≡ quote)
unfolding passes in_quotes
at_quote quote c z e = ground (arith, z, e)

quote-nonzero : {quote : ℕ} → IsQuote quote → (quote == 0) ≡ false
quote-nonzero single = refl
quote-nonzero double = refl

after_quote :
    {quote : ℕ} (text : Bytes)
    → IsQuote quote
    → (s : Split (passes (in_quotes quote)) text) → (b : Bool) → (peek s.after == 0) ≡ b
    → Follows (quote ∷ text)
after_quote {quote = quote} text q s true e =
    open_quote s.before s.after q s.all ((==_iff (peek s.after) 0).0 e)
      (ap (λ r. quote ∷ r) s.shape)
after_quote {quote = quote} text q s false e =
    let at_end = at_quote quote (peek s.after) e s.stops in
    let (rest, shape) = peek-cons s.after quote at_end (quote-nonzero q) in
    value s.before rest (
      subst (λ t. Valued s.before (quote ∷ t) rest) (sym (s.shape ∙ ap (λ r. s.before ++ r) shape))
        (quoted s.before rest q s.all))

begins_with :
    {quote : ℕ} (text : Bytes) → IsQuote quote → (peek text == quote) ≡ true → Follows text
begins_with {quote = quote} text q e =
    let (rest, shape) = peek-cons text quote ((==_iff (peek text) quote).0 e) (quote-nonzero q) in
    subst Follows (sym shape) (
      after_quote rest q (split (passes (in_quotes quote)) (passes-zero (in_quotes quote)) rest) _
        refl)

plain_value :
    (text : Bytes) → (peek text == b'\'') ≡ false → (peek text == b'"') ≡ false → Follows text
plain_value text e f =
    let s = split (passes in_plain) (passes-zero in_plain) text in
    value s.before s.after (
      subst (λ t. Valued s.before t s.after) (sym s.shape)
        (plain s.before s.after s.all s.stops (subst (λ t. (peek t == b'\'') ≡ false) s.shape e)
          (subst (λ t. (peek t == b'"') ≡ false) s.shape f)))

follows : (text : Bytes) → Follows text
follows text = elim (Bool-cases (peek text == b'\'')) [
  | inl e ↦ begins_with text single e
  | inr e ↦ elim (Bool-cases (peek text == b'"')) [
    | inl f ↦ begins_with text double f
    | inr f ↦ plain_value text e f
  ]
]

record Read (text : Bytes) : Type 0 where
  settings : List (Bytes × Bytes)
  end : Option Error
  reading : Reading text settings end

then_value :
    (spaces name text : Bytes)
    → AreSpaces spaces
    → AllPass in_name name
    → ((rest : Bytes) → length rest ≤ length text → Read rest)
    → Follows text
    → Read (spaces ++ (name ++ b'=' ∷ text))
then_value spaces name text h k more (value v rest w) =
    let r = more rest (Valued-length w) in
    record {
      settings = (name, v) ∷ r.settings;
      end = r.end;
      reading = setting spaces name v text rest h k w r.reading;
    }
then_value spaces name text h k more (open_quote v rest q w e shape) = record {
  settings = [];
  end = some unterminated;
  reading =
      subst (λ t. Reading (spaces ++ (name ++ b'=' ∷ t)) [] (some unterminated)) (sym shape)
        (no_quote spaces name v rest h k q w e);
}

-- A flag after the spaces.
then_flag :
    (spaces text : Bytes)
    → AreSpaces spaces
    → is_space (peek text) ≡ false
    → (peek text == 0) ≡ false
    → ((rest : Bytes) → length rest < length text → Read rest)
    → Read (spaces ++ text)
then_flag spaces text h s z more =
    let n = split (passes in_name) (passes-zero in_name) text in
    elim (Bool-cases (peek n.after == b'=')) [
      | inl e ↦
          let (t, shape) = peek-cons n.after b'=' ((==_iff (peek n.after) b'=').0 e) refl in
          let whole : text ≡ n.before ++ b'=' ∷ t = n.shape ∙ ap (λ r. n.before ++ r) shape in
          subst (λ u. Read (spaces ++ u)) (sym whole)
            (then_value spaces n.before t h n.all
              (λ rest le. more rest (
                omega (
                  arith,
                  le,
                  ap (λ (u : Bytes). length u) whole,
                  length-append n.before (b'=' ∷ t),
                )))
              (follows t))
      | inr e ↦ record {
        settings = [];
        end = some expected_equals;
        reading =
            subst (λ u. Reading (spaces ++ u) [] (some expected_equals)) (sym n.shape)
              (no_equals spaces n.before n.after h n.all n.stops e
                (subst (λ u. is_space (peek u) ≡ false) n.shape s)
                (subst (λ u. (peek u == 0) ≡ false) n.shape z));
      }
    ]

Read-any : (fuel : ℕ) (text : Bytes) → length text < fuel → Read text
Read-any zero text lt = absurd (omega arith)
Read-any (suc fuel) text lt =
    let s = split is_space space-zero text in
    elim (Bool-cases (peek s.after == 0)) [
      | inl e ↦ record {
        settings = [];
        end = none;
        reading =
            subst (λ u. Reading u [] none) (sym s.shape)
              (finished s.before s.after s.all ((==_iff (peek s.after) 0).0 e));
      }
      | inr e ↦ subst Read (sym s.shape) (
          then_flag s.before s.after s.all s.stops e (λ rest less. Read-any fuel rest (
            omega
              (arith, less, ap (λ (u : Bytes). length u) s.shape, length-append s.before s.after))))
    ]

-- Every string is one of the grammar, with settings and an end, and `ParseString` does what the
-- settings do, one after the other, and at the end goes on or dies with the error there.
pub parse_string-Read :
    {D : Type 0} (libc : Libc D) (text : Bytes) (p : Parser D)
    → (settings : List (Bytes × Bytes)) × (end : Option Error) × Reading text settings end
      × (parse_string libc (some text) p ≡ set_all libc settings p >>= finish end)
parse_string-Read libc text p =
    let r = Read-any (suc (length text)) text (omega arith) in
    (r.settings, r.end, r.reading, parse_string-Reading libc p r.reading)
