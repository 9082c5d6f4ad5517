-- ===== src/SchedExe/CliArgs/Tests.antt =====
-- Runs of src/sched-exe/cli_args.cpp.
use swm_sched.Prelude.{
  ◌≡◌, refl, String, String_eq, Bool, true, false, List, [], ◌∷◌, Option, none, some, if◌then◌else◌,
  ◌==◌,
}
use swm_sched.Auxl.CliArgsParser.{Parsed, register_flag, parse, parse_args}
use swm_sched.SchedExe.CliArgs.{
  Extracted, ExtractedDouble, CliError, help_is_not_alone, bad_timeout, CliArgs, registered_parser,
  check, init,
}
use swm_sched.SchedExe.CliArgs.Checks.{IsAccepted, init-IsAccepted}

-- A file system with one file and one directory, and two numbers that `>>` reads.
abbrev file_exist : String → Bool
file_exist name = name == "commands"

abbrev directory_exist : String → Bool
directory_exist name = name == "plugins"

abbrev extract : String → Extracted
extract text =
    if text == "8"
    then record { good = true; eof = true; negative = false; size = 8 }
    else record { good = false; eof = true; negative = false; size = 0 }

abbrev extract_double : String → ExtractedDouble Bool
extract_double text = record { good = text == "2.5"; eof = true; value = false }

abbrev started : CliArgs Bool
started = record {
  parser = elim registered_parser [
    | none ↦ record { simple_flags = []; valued_flags = [] }
    | some p ↦ p
  ];
  memory = record { flags = λ k. false; values = λ k. "" };
  in_queue_pvalue = 0;
  out_queue_pvalue = 0;
  timeout_pvalue = true;
}

abbrev outcome : List String → Option (CliArgs Bool × Option CliError)
outcome argv = init file_exist directory_exist extract extract_double (λ d. d) argv started

abbrev error_of : Option (CliArgs Bool × Option CliError) → Option CliError
error_of none = none
error_of (some (c, e)) = e

help_and_more : error_of (outcome ("swm-sched" ∷ "-h" ∷ "-d" ∷ [])) ≡ some help_is_not_alone
unfolding init check parse parse_args registered_parser register_flag
help_and_more = refl

no_number : error_of (outcome ("swm-sched" ∷ "--timeout" ∷ "soon" ∷ [])) ≡ some (bad_timeout "soon")
unfolding init check parse parse_args registered_parser register_flag
no_number = refl

abbrev after_start : CliArgs Bool
after_start =
    elim (outcome
      ("swm-sched" ∷ "-p" ∷ "plugins" ∷ "--in-queue" ∷ "8" ∷ "--timeout" ∷ "2.5" ∷ [])) [
        | none ↦ started
        | some (c, e) ↦ c
      ]

init-IsAccepted_example :
    (r : Parsed) × (parse started.parser
        ("swm-sched" ∷ "-p" ∷ "plugins" ∷ "--in-queue" ∷ "8" ∷ "--timeout" ∷ "2.5" ∷ [])
        started.memory
      ≡ some r)
    × IsAccepted file_exist directory_exist extract extract_double (λ d. d) started r after_start
unfolding init check parse parse_args registered_parser register_flag
init-IsAccepted_example =
    init-IsAccepted file_exist directory_exist extract extract_double (λ d. d)
      ("swm-sched" ∷ "-p" ∷ "plugins" ∷ "--in-queue" ∷ "8" ∷ "--timeout" ∷ "2.5" ∷ []) started
      after_start refl
