-- ===== src/Flags/Print.antt =====
-- A text of settings, each in double quotes, and what reading it does.
use otf_cpt.Common.{◌≡◌, refl, none, some, List, [], ◌∷◌, ◌++◌, All, ◌∙◌}
use otf_cpt.Flags.Values.{Bytes, Libc}
use otf_cpt.Flags.Parser.{
  Parser, Outcome, done, died, out_of_bounds, endless, ◌>>=◌, parse_string, peek,
}
use otf_cpt.Flags.Grammar.{
  in_name, in_quotes, AllPass, double, quoted, Reading, finished, setting, set_all, finish,
}
use otf_cpt.Flags.Whole.{parse_string-Reading}

unfoldable pub print : List (Bytes × Bytes) → Bytes
print [] = []
print ((name, value) ∷ r) = name ++ b'=' ∷ (b'"' ∷ value ++ b'"' ∷ print r)

abbrev pub IsPrintable : Bytes × Bytes → Type 0
IsPrintable (name, value) = AllPass in_name name × AllPass (in_quotes b'"') value

print-Reading :
    (settings : List (Bytes × Bytes))
    → All IsPrintable settings
    → Reading (print settings) settings none
unfolding print peek
print-Reading [] h = finished [] [] tt refl
print-Reading ((name, value) ∷ r) ((n, v), hs) =
    setting [] name value (b'"' ∷ value ++ b'"' ∷ print r) (print r) tt n
      (quoted value (print r) double v) (print-Reading r hs)

module _ {D : Type 0} where
  finish-none : (m : Outcome (Parser D)) → m >>= finish none ≡ m
  unfolding finish
  finish-none (done p) = refl
  finish-none (died e x) = refl
  finish-none out_of_bounds = refl
  finish-none endless = refl

  -- Settings whose names have no byte 0, `=` or space, and whose values have no byte 0 or double quote,
  -- are read back from the text that they are printed to, in which nothing stands between them:
  -- `ParseString` does what they do, one after the other, in every state.
  pub parse_string-print :
      (libc : Libc D) (settings : List (Bytes × Bytes)) (p : Parser D)
      → All IsPrintable settings
      → parse_string libc (some (print settings)) p ≡ set_all libc settings p
  parse_string-print libc settings p h =
      parse_string-Reading libc p (print-Reading settings h) ∙ finish-none (set_all libc settings p)
