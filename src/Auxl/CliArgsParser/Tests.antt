-- ===== src/Auxl/CliArgsParser/Tests.antt =====
-- Runs of src/sched-lib/auxl/cli_args_parser.cpp.
use swm_sched.Prelude.{ℕ, ◌≡◌, ◌↔◌, refl, true, List, [], ◌∷◌, Option, none, some}
use swm_sched.Auxl.CliArgsParser.{
  SimpleFlag, ValuedFlag, CliArgsParser, Memory, ParseError, already_defined, Parsed, register_flag,
  parse_args, parse,
}
use swm_sched.Auxl.CliArgsParser.Names.{Use, simple_use, valued_use, spell_all, AreUses}
use swm_sched.Auxl.CliArgsParser.Effects.{flag_after, value_after}
use swm_sched.Auxl.CliArgsParser.Uses.{parse-AreUses, spell_all-parse}

abbrev debug_flag : SimpleFlag
debug_flag = record { short_name = "-d"; long_name = "--debug"; flag_ptr = 0 }

abbrev queue_flag : ValuedFlag
queue_flag = record { short_name = ""; long_name = "--in-queue"; flag_ptr = 1; value_ptr = 0 }

abbrev two_flags : CliArgsParser
two_flags = record { simple_flags = debug_flag ∷ []; valued_flags = queue_flag ∷ [] }

abbrev blank_memory : Memory
blank_memory = record { flags = λ k. true; values = λ k. "" }

registered :
    (register_flag "-d" "--debug" (some 0) none (record { simple_flags = []; valued_flags = [] }))
    ≡ some (record two_flags { valued_flags = [] })
unfolding register_flag
registered = refl

not_again : register_flag "-x" "--debug" (some 3) none two_flags ≡ none
unfolding register_flag
not_again = refl

abbrev error_of : Option Parsed → Option ParseError
error_of none = none
error_of (some r) = r.error

repeated :
    error_of (parse two_flags ("swm-sched" ∷ "-d" ∷ "--debug" ∷ []) blank_memory)
    ≡ some (already_defined "--debug")
unfolding parse parse_args
repeated = refl

-- An empty argument is taken for the flag that has no short name.
empty_argument : error_of (parse two_flags ("swm-sched" ∷ "" ∷ "4" ∷ []) blank_memory) ≡ none
unfolding parse parse_args
empty_argument = refl

abbrev both_uses : List Use
both_uses = simple_use "-d" debug_flag ∷ valued_use "--in-queue" queue_flag "8" ∷ []

parse-AreUses_example :
    ((r : Parsed) × (parse two_flags ("swm-sched" ∷ "-d" ∷ []) blank_memory ≡ some r)
      × (r.error ≡ none))
    ↔ ((us : List Use) × ("-d" ∷ [] ≡ spell_all us) × AreUses two_flags [] us)
parse-AreUses_example = parse-AreUses two_flags "swm-sched" ("-d" ∷ []) blank_memory

spell_all-parse_example :
    (r : Parsed) × (parse two_flags ("swm-sched" ∷ "-d" ∷ "--in-queue" ∷ "8" ∷ []) blank_memory
      ≡ some r)
    × (r.error ≡ none)
    × (r.flag_num ≡ 2)
    × ((k : ℕ) → r.memory.flags k ≡ flag_after two_flags both_uses blank_memory k)
    × ((k : ℕ) → r.memory.values k ≡ value_after both_uses k "")
spell_all-parse_example =
    spell_all-parse two_flags "swm-sched" both_uses blank_memory
      (refl, (refl, (refl, (refl, (refl, tt)))))

-- The empty name is taken for the flag again.
empty_twice :
    error_of (parse two_flags ("swm-sched" ∷ "" ∷ "4" ∷ "" ∷ "5" ∷ []) blank_memory) ≡ none
unfolding parse parse_args
empty_twice = refl
