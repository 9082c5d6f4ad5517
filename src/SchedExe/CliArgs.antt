-- ===== src/SchedExe/CliArgs.antt =====
-- src/sched-exe/cli_args.{h,cpp}: the flags of the program and their checks. Whether a file or a directory
-- exists, and what `operator>>` reads from a text, are parameters.
pub mod Checks
mod Tests
use swm_sched.Prelude.{
  ℕ, String, String_eq, ℕ_eq, Bool, true, false, not, ◌&&◌, ◌||◌, List, [], ◌∷◌, Option, none, some,
  if◌then◌else◌, ◌==◌,
}
use swm_sched.Auxl.CliArgsParser.{CliArgsParser, Memory, ParseError, Parsed, register_flag, parse}

-- What `ss >> ival` leaves: whether it succeeded, `ss.eof()`, and the `int` by sign and size.
pub record Extracted : Type 0 where
  pub good : Bool
  pub eof : Bool
  pub negative : Bool
  pub size : ℕ

-- The same for a `double`.
pub record ExtractedDouble {ℓ} (Double : Type ℓ) : Type ℓ where
  pub good : Bool
  pub eof : Bool
  pub value : Double

pub data CliError : Type 0 where
  parse_failed : ParseError → CliError
  help_is_not_alone no_input_file no_plugins_directory : CliError
  bad_in_queue bad_out_queue bad_timeout : String → CliError

-- The addresses of the fields `x_flag_` and `x_value_`.
abbrev pub help_flag : ℕ
help_flag = 0

abbrev pub debug_flag : ℕ
debug_flag = 1

abbrev pub input_flag : ℕ
input_flag = 2

abbrev pub plugins_flag : ℕ
plugins_flag = 3

abbrev pub in_queue_flag : ℕ
in_queue_flag = 4

abbrev pub out_queue_flag : ℕ
out_queue_flag = 5

abbrev pub timeout_flag : ℕ
timeout_flag = 6

pub record CliArgs {ℓ} (Double : Type ℓ) : Type ℓ where
  pub parser : CliArgsParser
  pub memory : Memory
  pub in_queue_pvalue : ℕ
  pub out_queue_pvalue : ℕ
  pub timeout_pvalue : Double

infixl 5 ◌>>=◌
abbrev ◌>>=◌ {ℓ κ} : {A : Type ℓ} {B : Type κ} → Option A → (A → Option B) → Option B
none >>= k = none
some a >>= k = k a

-- The constructor. A value's address is that of its flag.
unfoldable pub registered_parser : Option CliArgsParser
unfolding register_flag
registered_parser = do
  a ←
      register_flag "-h" "--help" (some help_flag) none
        (record { simple_flags = []; valued_flags = [] })
  b ← register_flag "-d" "--debug" (some debug_flag) none a
  c ← register_flag "-i" "--input" (some input_flag) (some input_flag) b
  d ← register_flag "-p" "--plugins" (some plugins_flag) (some plugins_flag) c
  e ← register_flag "" "--in-queue" (some in_queue_flag) (some in_queue_flag) d
  f ← register_flag "" "--out-queue" (some out_queue_flag) (some out_queue_flag) e
  register_flag "" "--timeout" (some timeout_flag) (some timeout_flag) f

module _ {ℓ} {Double : Type ℓ} (file_exist directory_exist : String → Bool)
    (extract : String → Extracted) (extract_double : String → ExtractedDouble Double)
    (is_not_positive : Double → Bool) where
  -- `try_parse` for a `size_t`
  abbrev pub try_parse : String → Option ℕ
  try_parse val =
      if not (extract val).good || (not (extract val).eof || (extract val).negative)
      then none
      else some (extract val).size

  -- `try_parse` for a `double`
  abbrev pub try_parse_double : String → Option Double
  try_parse_double val =
      if not (extract_double val).good || not (extract_double val).eof
      then none
      else some (extract_double val).value

  -- Step 3 of `init`, flag by flag. The second component is the error; `init` gives true if there is
  -- none.
  abbrev pub read_timeout : CliArgs Double → CliArgs Double × Option CliError
  read_timeout c =
      let value = c.memory.values timeout_flag in
      if not (c.memory.flags timeout_flag) then (c, none) else elim (try_parse_double value) [
        | none ↦ (c, some (bad_timeout value))
        | some t ↦
            if is_not_positive t
            then (record c { timeout_pvalue = t }, some (bad_timeout value))
            else (record c { timeout_pvalue = t }, none)
      ]

  abbrev pub read_out_queue : CliArgs Double → CliArgs Double × Option CliError
  read_out_queue c =
      let value = c.memory.values out_queue_flag in
      if not (c.memory.flags out_queue_flag) then read_timeout c else elim (try_parse value) [
        | none ↦ (c, some (bad_out_queue value))
        | some n ↦ read_timeout (record c { out_queue_pvalue = n })
      ]

  abbrev pub read_in_queue : CliArgs Double → CliArgs Double × Option CliError
  read_in_queue c =
      let value = c.memory.values in_queue_flag in
      if not (c.memory.flags in_queue_flag) then read_out_queue c else elim (try_parse value) [
        | none ↦ (c, some (bad_in_queue value))
        | some n ↦ read_out_queue (record c { in_queue_pvalue = n })
      ]

  -- Step 2.
  unfoldable pub check : ℕ → CliArgs Double → CliArgs Double × Option CliError
  check parsed_args c =
      if c.memory.flags help_flag && not (parsed_args == 1)
      then (c, some help_is_not_alone)
      else if c.memory.flags input_flag && not (file_exist (c.memory.values input_flag))
      then (c, some no_input_file)
      else if c.memory.flags plugins_flag && not (directory_exist (c.memory.values plugins_flag))
      then (c, some no_plugins_directory)
      else read_in_queue c

  unfoldable pub init : List String → CliArgs Double → Option (CliArgs Double × Option CliError)
  init argv c = elim (parse c.parser argv c.memory) [
    | none ↦ none
    | some r ↦
        let c' = record c { memory = r.memory } in
        elim r.error [
          | some e ↦ some (c', some (parse_failed e))
          | none ↦ some (check r.flag_num c')
        ]
  ]
