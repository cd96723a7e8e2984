-- ===== src/Flags/Values.antt =====
-- include/parse_flags.h: `FlagHandler<T>::Parse` and `ParseBool`. A text is the list of its bytes, for
-- a string of C those before the final zero. A `double` is of any type `D`. The functions of the C
-- library are the fields of `Libc`.
use Prim.Native.Char.{code}
use Prim.Native.String.{String}
use otf_cpt.Common.{
  ℕ, ◌-◌, ◌%◌, ◌^◌, Bool, true, false, ◌&&◌, ◌||◌, Option, none, some, List, [], ◌∷◌, ◌==◌, ltb,
  if◌then◌else◌,
}
use otf_cpt.Common.Int.{ℤ, pos, negsuc}

abbrev pub Bytes : Type 0
Bytes = List ℕ

abbrev pub codes : String → Bytes
codes String.[] = []
codes (String.◌∷◌ c s) = code c ∷ codes s

-- `strcmp(a, b) == 0`
abbrev pub equal : Bytes → Bytes → Bool
equal [] [] = true
equal [] (c ∷ b) = false
equal (c ∷ a) [] = false
equal (c ∷ a) (d ∷ b) = let rest = equal a b in c == d && rest

-- `strtoll` and `strtod` return a number and where it ends in the text: what is left of it.
pub record Libc (D : Type 0) : Type 0 where
  pub strtoll : Bytes → ℤ × Bytes
  pub strtod : Bytes → D × Bytes
  pub getenv : Bytes → Option Bytes

pub data HandleSignalMode : Type 0 where
  k_handle_signal_no k_handle_signal_yes k_handle_signal_exclusive : HandleSignalMode

-- The types `T` of `FlagHandler<T>`.
pub data FlagType : Type 0 where
  bool_flag mode_flag string_flag int_flag double_flag uptr_flag s64_flag : FlagType

-- What stands where a handler's `t_` points.
pub data Value (D : Type 0) : Type 0 where
  bool_value : Bool → Value D
  mode_value : HandleSignalMode → Value D
  string_value : Bytes → Value D
  int_value : ℤ → Value D
  double_value : D → Value D
  uptr_value : ℕ → Value D
  s64_value : ℤ → Value D

-- A number to `width` bits without a sign, and with a sign.
unfoldable pub to_unsigned : ℕ → ℤ → ℕ
to_unsigned width (pos n) = n % 2 ^ width
to_unsigned width (negsuc n) = 2 ^ width - 1 - n % 2 ^ width

unfoldable pub to_signed : ℕ → ℤ → ℤ
to_signed width n =
    let m = to_unsigned width n in
    if ltb m (2 ^ (width - 1)) then pos m else negsuc (2 ^ width - 1 - m)

unfoldable pub parse_bool : Bytes → Option Bool
parse_bool value =
    if equal value (codes "0") || equal value (codes "no") || equal value (codes "false")
    then some false
    else (if equal value (codes "1") || equal value (codes "yes") || equal value (codes "true")
        then some true
        else none)

unfoldable pub parse_mode : Bytes → Option HandleSignalMode
parse_mode value = elim (parse_bool value) [
  | some b ↦ some (if b then k_handle_signal_yes else k_handle_signal_no)
  | none ↦
      if equal value (codes "2") || equal value (codes "exclusive")
      then some k_handle_signal_exclusive
      else none
]

-- `*value_end == 0`
unfoldable pub at_end : Bytes → Bool
at_end [] = true
at_end (c ∷ r) = c == 0

module _ {D : Type 0} where
  unfoldable pub set_if : {A : Type 0} → (A → Value D) → Option A → Value D → Bool × Value D
  set_if put none old = (false, old)
  set_if put (some a) old = (true, put a)

  unfoldable pub set_number : {A : Type 0} → (A → Value D) → A × Bytes → Bool × Value D
  set_number put (a, value_end) = (at_end value_end, put a)

  -- `Parse` of the handler for a type: whether it is `ok`, and what it leaves in place of `old`.
  unfoldable pub parse : Libc D → FlagType → Bytes → Value D → Bool × Value D
  parse libc bool_flag value old = set_if bool_value (parse_bool value) old
  parse libc mode_flag value old = set_if mode_value (parse_mode value) old
  parse libc string_flag value old = (true, string_value value)
  parse libc int_flag value old = set_number (λ n. int_value (to_signed 32 n)) (libc.strtoll value)
  parse libc double_flag value old = set_number double_value (libc.strtod value)
  parse libc uptr_flag value old =
      set_number (λ n. uptr_value (to_unsigned 64 n)) (libc.strtoll value)
  parse libc s64_flag value old = set_number s64_value (libc.strtoll value)
