-- ===== src/Ctrl/Receiver/Tests.antt =====
-- Runs of src/sched-lib/ctrl/receiver.cpp. A length is four bytes here.
use swm_sched.Prelude.{
  All, ℕ, suc, zero, ◌+◌, ◌*◌, ◌/◌, ◌%◌, ◌^◌, ◌<◌, ◌≡◌, refl, ℕ_eq, List, [], ◌∷◌, ◌++◌, Option,
  none, some, arith, length, true, false, take, if◌then◌else◌, ◌==◌,
}
use swm_sched.Ctrl.Receiver.{
  refused, received, throws_length_error, wrong_type, get_data, resize, read_parts,
}
use swm_sched.Ctrl.Receiver.Messages.{Part, IsPart, placed, encode_parts, get_data-encode_parts}
use swm_sched.Ctrl.Receiver.Loop.{
  new_receiver, init, finished, Parsed, makes, refuses, command, corrupted_command, ended,
  worker_loop,
}
use swm_sched.Ctrl.Receiver.Requests.{
  Request, encode_requests, commands_of, worker_loop-encode_requests,
}

read_exact : ℕ → List ℕ → Option (List ℕ × List ℕ)
read_exact zero input = some ([], input)
read_exact (suc n) [] = none
read_exact (suc n) (b ∷ input) =
    let rest = read_exact n input in
    elim rest [ none ↦ none | some (bytes, left) ↦ some (b ∷ bytes, left) ]

-- Four bytes, the highest first; a length of 0 is an error.
abbrev read_length : List ℕ → Option (ℕ × List ℕ)
read_length (a ∷ b ∷ c ∷ d ∷ input) =
    let n = ((a * 256 + b) * 256 + c) * 256 + d in if n == 0 then none else some (n, input)
read_length _ = none

abbrev encode_length : ℕ → List ℕ
encode_length n = n / 16777216 ∷ n / 65536 % 256 ∷ n / 256 % 256 ∷ n % 256 ∷ []

exact : (bytes rest : List ℕ) → read_exact (length bytes) (bytes ++ rest) ≡ some (bytes, rest)
unfolding read_exact
exact [] rest = refl
exact (b ∷ bytes) rest = rw (exact bytes rest, read_exact) refl

reads_length :
    (n : ℕ) (rest : List ℕ)
    → 0 < n
    → n < 2 ^ 32
    → read_length (encode_length n ++ rest) ≡ some (n, rest)
reads_length n rest positive fits = ground arith

abbrev two_parts : List Part
two_parts = record { type = 1; bytes = 8 ∷ 9 ∷ [] } ∷ record { type = 0; bytes = 7 ∷ [] } ∷ []

two_fit : (total : ℕ) → 1 < total → All (IsPart total) two_parts
two_fit total h = (
  record { in_range = omega arith; not_empty = omega arith; fits = omega arith },
  (record { in_range = omega arith; not_empty = omega arith; fits = omega arith }, tt),
)

get_data-encode_parts_example :
    get_data read_exact read_length (2 ∷ 2 ∷ encode_parts encode_length two_parts (5 ∷ []))
    ≡ received 2 (placed two_parts (none ∷ none ∷ [])) (5 ∷ [])
get_data-encode_parts_example =
    get_data-encode_parts encode_length read_exact read_length exact reads_length 2 two_parts
      (5 ∷ []) refl (omega arith) (two_fit 2 (omega arith))

-- A count of parts from 128 on is taken for a negative number.
too_many : get_data read_exact read_length (0 ∷ 200 ∷ 5 ∷ []) ≡ throws_length_error
unfolding get_data resize read_exact
too_many = refl

wrong_place : get_data read_exact read_length (0 ∷ 1 ∷ 1 ∷ []) ≡ refused (wrong_type 1)
unfolding get_data read_parts read_exact
wrong_place = refl

-- A command of the number of its parts; an exchange is refused.
abbrev parse_command : ℕ → List (Option (List ℕ)) → Parsed ℕ
parse_command type data' = if type == 3 then refuses else makes (length data')

abbrev requests : List Request
requests =
    record { type = 2; parts = two_parts }
    ∷ record { type = 3; parts = [] }
    ∷ record { type = 1; parts = [] }
    ∷ []

worker_loop-encode_requests_example :
    worker_loop read_exact read_length parse_command
      (false ∷ false ∷ true ∷ [])
      (encode_requests encode_length requests)
    ≡ some (
      ended,
      commands_of encode_length read_exact read_length exact reads_length parse_command
          (take 2 requests),
    )
worker_loop-encode_requests_example =
    worker_loop-encode_requests encode_length read_exact read_length exact reads_length
      parse_command 2 requests []
      (
        record { sent = refl; few = omega arith; can_be_written = two_fit 2 (omega arith) },
        (
          record { sent = refl; few = omega arith; can_be_written = tt },
          (record { sent = refl; few = omega arith; can_be_written = tt }, tt),
        ),
      )

pushes_two :
    commands_of encode_length read_exact read_length exact reads_length parse_command
      (take 2 requests)
    ≡ command 1 2 ∷ corrupted_command 1 ∷ []
unfolding commands_of
pushes_two = refl

begins_once :
    (init (some 1) (some 2) new_receiver
      ≡ some (record { closed = false; finished_flag = false; input = some 2; queue = some 1 }))
    × (init none (some 2) new_receiver ≡ none)
    × (finished new_receiver ≡ none)
unfolding init finished
begins_once = (refl, refl, refl)
