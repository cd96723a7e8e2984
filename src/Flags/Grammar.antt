-- ===== src/Flags/Grammar.antt =====
-- What a text of settings is: a grammar beside the parser, with the ways a text can break off.
use otf_cpt.Common.{
  ℕ, ◌≡◌, Bool, true, false, not, ◌&&◌, Option, none, some, List, [], ◌∷◌, ◌++◌, ◌==◌, All,
}
use otf_cpt.Flags.Values.{Bytes, Libc}
use otf_cpt.Flags.Parser.{
  Parser, Error, expected_equals, unterminated, Outcome, done, ◌>>=◌, die, set_flag, is_space, peek,
}

-- A byte that ends nothing, where `go` says what goes on.
unfoldable pub passes : (ℕ → Bool) → ℕ → Bool
passes go c = not (c == 0) && go c

unfoldable pub in_name : ℕ → Bool
in_name c = not (c == b'=') && not (is_space c)

unfoldable pub in_quotes : ℕ → ℕ → Bool
in_quotes quote c = not (c == quote)

unfoldable pub in_plain : ℕ → Bool
in_plain c = not (is_space c)

abbrev pub AllPass : (ℕ → Bool) → Bytes → Type 0
AllPass go = All (λ c. passes go c ≡ true)

abbrev pub AreSpaces : Bytes → Type 0
AreSpaces = All (λ c. is_space c ≡ true)

pub data IsQuote : ℕ → Type 0 where
  single : IsQuote b'\''
  double : IsQuote b'"'

-- The text begins with the value, in quotes or plain, and the rest follows.
pub data Valued : Bytes → Bytes → Bytes → Type 0 where
  quoted :
      {quote : ℕ} (v rest : Bytes)
      → IsQuote quote
      → AllPass (in_quotes quote) v
      → Valued v (quote ∷ v ++ quote ∷ rest) rest
  plain :
      (v rest : Bytes)
      → AllPass in_plain v
      → passes in_plain (peek rest) ≡ false
      → (peek (v ++ rest) == b'\'') ≡ false
      → (peek (v ++ rest) == b'"') ≡ false
      → Valued v (v ++ rest) rest

-- The settings of a text, and the error at which it breaks off, if it does.
pub data Reading : Bytes → List (Bytes × Bytes) → Option Error → Type 0 where
  finished :
      (spaces rest : Bytes) → AreSpaces spaces → peek rest ≡ 0 → Reading (spaces ++ rest) [] none
  setting :
      (spaces name value text rest : Bytes) {settings : List (Bytes × Bytes)} {end : Option Error}
      → AreSpaces spaces
      → AllPass in_name name
      → Valued value text rest
      → Reading rest settings end
      → Reading (spaces ++ (name ++ b'=' ∷ text)) ((name, value) ∷ settings) end
  no_equals :
      (spaces name rest : Bytes)
      → AreSpaces spaces
      → AllPass in_name name
      → passes in_name (peek rest) ≡ false
      → (peek rest == b'=') ≡ false
      → is_space (peek (name ++ rest)) ≡ false
      → (peek (name ++ rest) == 0) ≡ false
      → Reading (spaces ++ (name ++ rest)) [] (some expected_equals)
  no_quote :
      {quote : ℕ} (spaces name v rest : Bytes)
      → AreSpaces spaces
      → AllPass in_name name
      → IsQuote quote
      → AllPass (in_quotes quote) v
      → peek rest ≡ 0
      → Reading (spaces ++ (name ++ b'=' ∷ quote ∷ (v ++ rest))) [] (some unterminated)

module _ {D : Type 0} where
  -- The settings one after the other, and the end of the text.
  unfoldable pub set_all : Libc D → List (Bytes × Bytes) → Parser D → Outcome (Parser D)
  set_all libc [] p = done p
  set_all libc (s ∷ r) p = do p' ← set_flag libc s p; set_all libc r p'

  unfoldable pub finish : Option Error → Parser D → Outcome (Parser D)
  finish none p = done p
  finish (some e) p = die e p
