-- ===== src/Auxl/CliArgsParser.antt =====
-- src/sched-lib/auxl/cli_args_parser.{h,cpp}. The `bool *` and `std::string *` of a flag are addresses,
-- and what the parser writes through them is a memory; `none` is a null pointer.
pub mod Names
pub mod Effects
pub mod Uses
mod Tests
use swm_sched.Prelude.{
  ℕ, ◌+◌, String, String_eq, ℕ_eq, Bool, true, false, not, ◌&&◌, ◌||◌, List, [], ◌∷◌, ◌++◌, Option,
  none, some, if◌then◌else◌, ◌==◌, find_if, contains,
}

pub record SimpleFlag : Type 0 where
  pub short_name : String
  pub long_name : String
  pub flag_ptr : ℕ

pub record ValuedFlag : Type 0 where
  pub short_name : String
  pub long_name : String
  pub flag_ptr : ℕ
  pub value_ptr : ℕ

pub record CliArgsParser : Type 0 where
  pub simple_flags : List SimpleFlag
  pub valued_flags : List ValuedFlag

pub record Memory : Type 0 where
  pub flags : ℕ → Bool
  pub values : ℕ → String

abbrev pub find_simple_flag : String → CliArgsParser → Option SimpleFlag
find_simple_flag name p = find_if (λ f. f.short_name == name || f.long_name == name) p.simple_flags

abbrev pub find_valued_flag : String → CliArgsParser → Option ValuedFlag
find_valued_flag name p = find_if (λ f. f.short_name == name || f.long_name == name) p.valued_flags

abbrev pub is_some {ℓ} : {A : Type ℓ} → Option A → Bool
is_some none = false
is_some (some a) = true

abbrev pub is_registered : String → CliArgsParser → Bool
is_registered name p = is_some (find_simple_flag name p) || is_some (find_valued_flag name p)

-- `none` is an exception.
unfoldable pub register_flag :
    String → String → Option ℕ → Option ℕ → CliArgsParser → Option CliArgsParser
register_flag short_name long_name flag_ptr value_ptr p =
    if short_name == "" && long_name == "" then none else elim flag_ptr [
      | none ↦ none
      | some flag ↦
          if not (short_name == "") && is_registered short_name p
          then none
          else if not (long_name == "") && is_registered long_name p
          then none
          else elim value_ptr [
            | none ↦ some (record p {
              simple_flags =
                  p.simple_flags
                  ++ record { short_name = short_name; long_name = long_name; flag_ptr = flag }
                    ∷ [];
            })
            | some value ↦ some (record p {
              valued_flags =
                  p.valued_flags
                  ++ record {
                    short_name = short_name;
                    long_name = long_name;
                    flag_ptr = flag;
                    value_ptr = value;
                  }
                    ∷ [];
            })
          ]
    ]

abbrev pub set_flag : ℕ → Bool → Memory → Memory
set_flag a b m = record m { flags = λ k. if k == a then b else m.flags k }

abbrev pub set_value : ℕ → String → Memory → Memory
set_value a v m = record m { values = λ k. if k == a then v else m.values k }

-- The loops that set all flags to false.
abbrev pub clear_simple : List SimpleFlag → Memory → Memory
clear_simple [] m = m
clear_simple (f ∷ fs) m = clear_simple fs (set_flag f.flag_ptr false m)

abbrev pub clear_valued : List ValuedFlag → Memory → Memory
clear_valued [] m = m
clear_valued (f ∷ fs) m = clear_valued fs (set_flag f.flag_ptr false m)

abbrev pub meet : String → String → List String → List String
meet short_name long_name met =
    let met' = if short_name == "" then met else short_name ∷ met in
    if long_name == "" then met' else long_name ∷ met'

pub data ParseError : Type 0 where
  already_defined value_expected unknown_flag : String → ParseError

-- `error` is what is written to `output`; the result is true if there is none.
pub record Parsed : Type 0 where
  pub memory : Memory
  pub flag_num : ℕ
  pub error : Option ParseError

abbrev pub fails_with : ParseError → ℕ → Memory → Parsed
fails_with e n m = record { memory = m; flag_num = n; error = some e }

abbrev pub succeeds_with : ℕ → Memory → Parsed
succeeds_with n m = record { memory = m; flag_num = n; error = none }

abbrev pub use_simple : SimpleFlag → Memory → Memory
use_simple f m = set_flag f.flag_ptr true m

abbrev pub use_valued : ValuedFlag → String → Memory → Memory
use_valued f v m = set_value f.value_ptr v (set_flag f.flag_ptr true m)

module _ (p : CliArgsParser) where
  -- The loop over the arguments behind the program's name.
  unfoldable pub parse_args : List String → List String → ℕ → Memory → Parsed
  parse_args [] met n m = succeeds_with n m
  parse_args (name ∷ []) met n m =
      if contains name met
      then fails_with (already_defined name) (n + 1) m
      else elim (find_simple_flag name p) [
        | some f ↦ succeeds_with (n + 1) (use_simple f m)
        | none ↦ elim (find_valued_flag name p) [
          | some f ↦ fails_with (value_expected name) (n + 1) m
          | none ↦ fails_with (unknown_flag name) (n + 1) m
        ]
      ]
  parse_args (name ∷ value ∷ rest) met n m =
      if contains name met
      then fails_with (already_defined name) (n + 1) m
      else elim (find_simple_flag name p) [
        | some f ↦
            parse_args (value ∷ rest) (meet f.short_name f.long_name met) (n + 1) (use_simple f m)
        | none ↦ elim (find_valued_flag name p) [
          | some f ↦
              parse_args rest (meet f.short_name f.long_name met) (n + 1) (use_valued f value m)
          | none ↦ fails_with (unknown_flag name) (n + 1) m
        ]
      ]

  -- `argv` with the program's name; without it, an exception.
  unfoldable pub parse : List String → Memory → Option Parsed
  parse [] m = none
  parse (program ∷ args) m =
      some (parse_args args [] 0 (clear_valued p.valued_flags (clear_simple p.simple_flags m)))
