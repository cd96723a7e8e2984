-- ===== src/Flags/Typed.antt =====
-- The values that a flag's handler leaves.
use otf_cpt.Common.{ℕ, Bool, Option, none, some}
use otf_cpt.Flags.Values.{
  Bytes, Libc, FlagType, bool_flag, mode_flag, string_flag, int_flag, double_flag, uptr_flag,
  s64_flag, Value, bool_value, mode_value, string_value, int_value, double_value, uptr_value,
  s64_value, parse, set_if, set_number, parse_bool, parse_mode,
}

module _ {D : Type 0} where
  pub data HasType : FlagType → Value D → Type 0 where
    is_bool : (b : Bool) → HasType bool_flag (bool_value b)
    is_mode : (m : _) → HasType mode_flag (mode_value m)
    is_string : (s : Bytes) → HasType string_flag (string_value s)
    is_int : (n : _) → HasType int_flag (int_value n)
    is_double : (d : D) → HasType double_flag (double_value d)
    is_uptr : (n : ℕ) → HasType uptr_flag (uptr_value n)
    is_s64 : (n : _) → HasType s64_flag (s64_value n)

  set_if-HasType :
      {A : Type 0} (t : FlagType) (put : A → Value D) (o : Option A) (old : Value D)
      → ((a : A) → HasType t (put a))
      → HasType t old
      → HasType t (set_if put o old).1
  unfolding set_if
  set_if-HasType t put none old h k = k
  set_if-HasType t put (some a) old h k = h a

  pub parse-HasType :
      (libc : Libc D) (t : FlagType) (value : Bytes) (old : Value D)
      → HasType t old
      → HasType t (parse libc t value old).1
  unfolding parse set_number
  parse-HasType libc bool_flag value old h =
      set_if-HasType bool_flag bool_value (parse_bool value) old is_bool h
  parse-HasType libc mode_flag value old h =
      set_if-HasType mode_flag mode_value (parse_mode value) old is_mode h
  parse-HasType libc string_flag value old h = is_string value
  parse-HasType libc int_flag value old h = is_int _
  parse-HasType libc double_flag value old h = is_double _
  parse-HasType libc uptr_flag value old h = is_uptr _
  parse-HasType libc s64_flag value old h = is_s64 _
