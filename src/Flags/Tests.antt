-- ===== src/Flags/Tests.antt =====
-- Flags at concrete inputs.
use otf_cpt.Common.{
  ℕ, ◌+◌, ◌-◌, ◌*◌, ◌≡◌, refl, Bool, true, false, ◌&&◌, Option, none, some, List, [], ◌∷◌, All, leb,
  if◌then◌else◌, arith, subst, sym, ◌<◌,
}
use otf_cpt.Common.Int.{ℤ, pos}
use otf_cpt.Flags.Values.{
  Bytes, codes, equal, Libc, Value, bool_value, int_value, FlagType, parse, set_if, parse_bool,
}
use otf_cpt.Flags.Parser.{
  Parser, Error, unterminated, died, out_of_bounds, aborted, ◌>>=◌, die, peek, tail, is_space,
  skip_whitespace, advance, ll_strndup, read_value, read_flag, parse_string, parse_flags, set_flag,
  run_handler, find_flag, add, check_index, max_unknown_flags,
}
use otf_cpt.Flags.Setup.{System, table, initialize_cpt_flags, legacy_analysis_flags}
use otf_cpt.Flags.Grammar.{
  passes, in_name, in_quotes, in_plain, AllPass, Reading, finished, setting, single, quoted, plain,
  set_all, finish,
}
use otf_cpt.Flags.Print.{print, IsPrintable, parse_string-print}
use otf_cpt.Flags.Every.{parse_string-Read}
use otf_cpt.Flags.Whole.{parse_string-Reading}
use otf_cpt.Flags.Ends.{Ends, count_unknown}
use otf_cpt.Flags.Startup.Table.{table_flags}
use otf_cpt.Flags.Startup.{Reads, chosen, initialize_cpt_flags-Ends, HasValue}

-- A number of the C library, in its decimal digits.
abbrev digits : ℕ → Bytes → ℕ × Bytes
digits n [] = (n, [])
digits n (c ∷ r) =
    let further = digits (n * 10 + (c - b'0')) r in
    if leb b'0' c && leb c b'9' then further else (n, c ∷ r)

abbrev number : Bytes → ℤ × Bytes
number s = let (n, rest) = digits 0 s in (pos n, rest)

abbrev legacy : Bytes
legacy = codes "verbose=1,exitcode='7' log_path=a/b"

abbrev environment : Bytes → Option Bytes
environment name = if equal name legacy_analysis_flags then some legacy else none

abbrev libc : Libc ℤ
libc = record { strtoll = number; strtod = number; getenv = environment }

abbrev system : System
system = record { fopen = λ name. true; pid = codes "42"; options = some (codes "exitcode=5") }

abbrev raw : ℕ → Value ℤ
raw i = int_value (pos i)

abbrev start : Parser ℤ
start = record {
  flags = (record { name = codes "verbose"; type = FlagType.bool_flag; field = 1 }) ∷ [];
  unknown_flags = [];
  fields = λ i. bool_value true;
}

abbrev settings : List (Bytes × Bytes)
settings = (codes "verbose", codes "no") ∷ (codes "x", codes "a b'c") ∷ []

abbrev all_of : (ℕ → Bool) → Bytes → Bool
all_of t [] = true
all_of t (c ∷ s) = let rest = all_of t s in if t c then rest else false

-- A test of all bytes of a text.
tested : (t : ℕ → Bool) (s : Bytes) → all_of t s ≡ true → All (λ c. t c ≡ true) s
tested t [] h = tt
tested t (c ∷ s) h = by_first (t c) refl h (λ k. tested t s k)
  where
    by_first :
        (b : Bool)
        → t c ≡ b
        → (if b then all_of t s else false) ≡ true
        → (all_of t s ≡ true → All (λ c. t c ≡ true) s)
        → (t c ≡ true) × All (λ c. t c ≡ true) s
    by_first true e h rest = (e, rest h)
    by_first false e h rest = absurd (ground (arith, h))

named : (s : Bytes) → all_of (passes in_name) s ≡ true → AllPass in_name s
named s h = tested (passes in_name) s h

within :
    (quote : ℕ) (s : Bytes)
    → all_of (passes (in_quotes quote)) s ≡ true
    → AllPass (in_quotes quote) s
within quote s h = tested (passes (in_quotes quote)) s h

bare : (s : Bytes) → all_of (passes in_plain) s ≡ true → AllPass in_plain s
bare s h = tested (passes in_plain) s h

settings-IsPrintable : All IsPrintable settings
unfolding passes in_name in_quotes is_space
settings-IsPrintable = (
  (named (codes "verbose") refl, within b'"' (codes "no") refl),
  ((named (codes "x") refl, within b'"' (codes "a b'c") refl), tt),
)

parse_string-print_example :
    parse_string libc (some (print settings)) start ≡ set_all libc settings start
parse_string-print_example = parse_string-print libc settings start settings-IsPrintable

-- `exitcode=5`
options-Reading : Reading (codes "exitcode=5") ((codes "exitcode", codes "5") ∷ []) none
unfolding passes in_name in_plain is_space peek
options-Reading =
    setting [] (codes "exitcode") (codes "5") (codes "5") [] tt (named (codes "exitcode") refl)
      (plain (codes "5") [] (bare (codes "5") refl) refl refl refl) (finished [] [] tt refl)

abbrev legacy_settings : List (Bytes × Bytes)
legacy_settings =
    (codes "verbose", codes "1")
    ∷ (codes "exitcode", codes "7")
    ∷ (codes "log_path", codes "a/b")
    ∷ []

legacy-Reading : Reading legacy legacy_settings none
unfolding passes in_name in_plain in_quotes is_space peek
legacy-Reading =
    setting [] (codes "verbose") (codes "1") (codes "1,exitcode='7' log_path=a/b")
      (codes ",exitcode='7' log_path=a/b") tt (named (codes "verbose") refl)
      (plain (codes "1") (codes ",exitcode='7' log_path=a/b") (bare (codes "1") refl) refl refl
        refl)
      (setting (codes ",") (codes "exitcode") (codes "7") (codes "'7' log_path=a/b")
        (codes " log_path=a/b") (refl, tt) (named (codes "exitcode") refl)
        (quoted (codes "7") (codes " log_path=a/b") single (within b'\'' (codes "7") refl))
        (setting (codes " ") (codes "log_path") (codes "a/b") (codes "a/b") [] (refl, tt)
          (named (codes "log_path") refl)
          (plain (codes "a/b") [] (bare (codes "a/b") refl) refl refl refl)
          (finished [] [] tt refl)))

chosen-legacy : chosen libc ≡ some legacy
unfolding chosen
chosen-legacy = refl

-- The exit code is 5 in the default options, and 7 in the environment.
initialize_cpt_flags-Ends_example :
    Ends
      (HasValue libc (pos 0) ((codes "exitcode", codes "5") ∷ legacy_settings) 14 (record {
        name = codes "exitcode";
        type = FlagType.int_flag;
        default = int_value (pos 23);
      }))
      (max_unknown_flags
        < count_unknown (table_flags (pos 0)) ((codes "exitcode", codes "5") ∷ legacy_settings))
      (initialize_cpt_flags libc system (pos 0) raw none)
unfolding table
initialize_cpt_flags-Ends_example =
    initialize_cpt_flags-Ends libc system (pos 0) raw ((codes "exitcode", codes "5") ∷ [])
      legacy_settings 14
      (record { name = codes "exitcode"; type = FlagType.int_flag; default = int_value (pos 23) })
      (none, options-Reading)
      (subst (λ t. Reads t legacy_settings) (sym chosen-legacy) (none, legacy-Reading)) refl

parse_string-Reading_example :
    parse_string libc (some legacy) start ≡ set_all libc legacy_settings start >>= finish none
parse_string-Reading_example = parse_string-Reading libc start legacy-Reading

parse_string-Read_example :
    (settings : List (Bytes × Bytes)) × (end : Option Error) × Reading
      (codes "verbose=no x='unterminated")
      settings
      end
    × (parse_string libc (some (codes "verbose=no x='unterminated")) start
        ≡ set_all libc settings start >>= finish end)
parse_string-Read_example = parse_string-Read libc (codes "verbose=no x='unterminated") start

-- The end of an unterminated text.
unterminated_died :
    parse_string libc (some (codes "verbose=no x='unterminated")) start ≡ died unterminated aborted
unfolding parse_string parse_flags read_flag read_value advance ll_strndup skip_whitespace is_space
    peek tail set_flag run_handler find_flag die parse set_if parse_bool
unterminated_died = refl

-- 21 names that no flag has.
abbrev too_many : Bytes
too_many = codes "a= b= c= d= e= f= g= h= i= j= k= l= m= n= o= p= q= r= s= t= u="

too_many_unknown : parse_string libc (some too_many) start ≡ out_of_bounds
unfolding parse_string parse_flags read_flag read_value advance ll_strndup skip_whitespace is_space
    peek tail set_flag run_handler find_flag add check_index max_unknown_flags
too_many_unknown = refl
