-- ===== src/Flags/Setup.antt =====
-- src/parse_flags.cpp and include/parse_flags.inc: the table of the flags, and `InitializeCptFlags`.
-- A field of `CptFlags` is its place in the table. The descriptions are left out, and so is the output.
use otf_cpt.Common.{
  ℕ, zero, suc, Bool, true, false, Option, none, some, List, [], ◌∷◌, ◌++◌, if◌then◌else◌,
}
use otf_cpt.Common.Int.{pos}
use otf_cpt.Flags.Values.{
  Bytes, codes, equal, Libc, FlagType, bool_flag, string_flag, int_flag, double_flag, Value,
  bool_value, string_value, int_value, double_value,
}
use otf_cpt.Flags.Parser.{
  Parser, Outcome, ◌>>=◌, done, register_handler, parse_string, parse_string_from_env,
}

-- What `fopen` and `sprintf` do to the name of the log: whether it can be opened, and the digits of
-- the process. `options` is what `__cpt_default_options` returns, an empty text unless it is replaced.
pub record System : Type 0 where
  pub fopen : Bytes → Bool
  pub pid : Bytes
  pub options : Option Bytes

-- `PARSE_FLAG`
pub record Row (D : Type 0) : Type 0 where
  pub name : Bytes
  pub type : FlagType
  pub default : Value D

pub data Output : Type 0 where
  to_stdout to_stderr to_null : Output
  to_file : Bytes → Output

pub record CptFlags (D : Type 0) : Type 0 where
  pub parser : Parser D
  pub output : Output

abbrev pub analysis_flags : Bytes
analysis_flags = codes "CPT_OPTIONS"

abbrev pub legacy_analysis_flags : Bytes
legacy_analysis_flags = codes "OTFCPT_OPTIONS"

abbrev pub verbose : ℕ
verbose = 1

abbrev pub log_path : ℕ
log_path = 16

-- The end of `InitializeCptFlags`.
unfoldable pub open_log : System → Bytes → Output
open_log system path =
    if equal (codes "stdout") path
    then to_stdout
    else (if equal (codes "stderr") path
        then to_stderr
        else (let name = path ++ b'.' ∷ system.pid in
            if system.fopen name then to_file name else to_null))

module _ {D : Type 0} where
  abbrev bool_row : Bytes → Bool → Row D
  bool_row name b = record { name = name; type = bool_flag; default = bool_value b }

  unfoldable pub table : D → List (Row D)
  table minus_one =
      bool_row (codes "print_max_rss") false
      ∷ bool_row (codes "verbose") false
      ∷ bool_row (codes "enabled") true
      ∷ bool_row (codes "report_data_leak") false
      ∷ bool_row (codes "stopped") false
      ∷ bool_row (codes "start_with_library_constructor") false
      ∷ bool_row (codes "dump_on_stop") false
      ∷ bool_row (codes "barrier") false
      ∷ bool_row (codes "colorize") true
      ∷ bool_row (codes "help") false
      ∷ bool_row (codes "stacktrace") false
      ∷ bool_row (codes "abort_on_error") false
      ∷ bool_row (codes "continue_on_error") true
      ∷ (record { name = codes "metric_factor"; type = int_flag; default = int_value (pos 1) })
      ∷ (record { name = codes "exitcode"; type = int_flag; default = int_value (pos 23) })
      ∷ (record { name = codes "runtime"; type = double_flag; default = double_value minus_one })
      ∷ (record {
        name = codes "log_path";
        type = string_flag;
        default = string_value (codes "stdout");
      })
      ∷ (record {
        name = codes "data_path";
        type = string_flag;
        default = string_value (codes "stdout");
      })
      ∷ []

  -- `SetDefaults`, where the fields from the first row on are those from `field` on.
  unfoldable pub set_defaults : List (Row D) → (ℕ → Value D) → ℕ → Value D
  set_defaults [] old field = old field
  set_defaults (r ∷ rows) old zero = r.default
  set_defaults (r ∷ rows) old (suc field) = set_defaults rows (λ f. old (suc f)) field

  -- `RegisterCptFlags`, from the row of the field `field` on.
  unfoldable pub register_cpt_flags : List (Row D) → ℕ → Parser D → Outcome (Parser D)
  register_cpt_flags [] field p = done p
  register_cpt_flags (r ∷ rows) field p =
      register_handler (record { name = r.name; type = r.type; field = field }) p
      >>= register_cpt_flags rows (suc field)

  unfoldable pub choose_output : System → (ℕ → Value D) → Output
  choose_output system fields = elim (fields log_path) [
    | string_value path ↦ elim (fields verbose) [
      | bool_value true ↦ open_log system path
      | _ ↦ to_stderr
    ]
    | _ ↦ to_stderr
  ]

  module _ (libc : Libc D) (system : System) (minus_one : D) where
    unfoldable pub parse_environment : Parser D → Outcome (Parser D)
    parse_environment p = elim (libc.getenv analysis_flags) [
      | some _ ↦ parse_string_from_env libc analysis_flags p
      | none ↦ parse_string_from_env libc legacy_analysis_flags p
    ]

    unfoldable pub parse_all : Parser D → Outcome (Parser D)
    parse_all p = parse_string libc system.options p >>= parse_environment

    -- `InitializeCptFlags`: `none` is a null `cpt_flags_dont_use`, and `raw` what `new` finds. The
    -- unknown flags are reported in the end.
    unfoldable pub initialize_cpt_flags : (ℕ → Value D) → Option (CptFlags D) → Outcome (CptFlags D)
    initialize_cpt_flags raw (some f) = done f
    initialize_cpt_flags raw none = do
      p ←
          register_cpt_flags (table minus_one) 0
            (record { flags = []; unknown_flags = []; fields = set_defaults (table minus_one) raw })
      p' ← parse_all p
      done (record {
        parser = record p' { unknown_flags = [] };
        output = choose_output system p'.fields;
      })
