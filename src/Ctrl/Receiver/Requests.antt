-- ===== src/Ctrl/Receiver/Requests.antt =====
-- A sequence of requests, for the loop in src/sched-lib/ctrl/receiver.cpp.
use swm_sched.Prelude.{
  ℕ, zero, suc, ◌<◌, ◌^◌, ◌∙◌, arith, ◌≡◌, refl, ap, ℕ_eq, Bool, true, false, List, [], ◌∷◌, ◌++◌,
  Option, none, some, replicate, contains, length, All, take,
}
use swm_sched.Ctrl.Receiver.{sent_commands}
use swm_sched.Ctrl.Receiver.Messages.{Part, IsPart, placed, encode_parts, get_data-encode_parts}
use swm_sched.Ctrl.Receiver.Loop.{
  makes, refuses, raises, command, corrupted_command, Parsed, Pushed, ended, push_command, before,
  worker_loop,
}

pub record Request : Type 0 where
  pub type : ℕ
  pub parts : List Part

-- What can be written.
pub record IsRequest (r : Request) : Type 0 where
  pub sent : contains r.type sent_commands ≡ true
  pub few : length r.parts < 128
  pub can_be_written : All (IsPart (length r.parts)) r.parts

abbrev pub encode_requests : (ℕ → List ℕ) → List Request → List ℕ
encode_requests encode_length [] = []
encode_requests encode_length (r ∷ rs) =
    r.type ∷ length r.parts ∷ encode_parts encode_length r.parts (encode_requests encode_length rs)

module _ {Command : Type 0} (encode_length : ℕ → List ℕ)
    (read_exact : ℕ → List ℕ → Option (List ℕ × List ℕ))
    (read_length : List ℕ → Option (ℕ × List ℕ))
    (exact : (bytes rest : List ℕ) → read_exact (length bytes) (bytes ++ rest) ≡ some (bytes, rest))
    (reads_length : (n : ℕ) (rest : List ℕ)
      → 0 < n
      → n < 2 ^ 32
      → read_length (encode_length n ++ rest) ≡ some (n, rest))
    (init_command : ℕ → List (Option (List ℕ)) → Parsed Command) where
  -- The data of a request, each part at its place.
  abbrev pub data_of_request : Request → List (Option (List ℕ))
  data_of_request r = placed r.parts (replicate (length r.parts) none)

  -- What is to be pushed for a request of which `init` made this. All contexts have the identifier 1.
  abbrev pub for_parsed : Parsed Command → List (Pushed Command)
  for_parsed (makes c) = command 1 c ∷ []
  for_parsed refuses = corrupted_command 1 ∷ []
  for_parsed raises = []

  -- The commands of requests, in their order.
  unfoldable pub commands_of : List Request → List (Pushed Command)
  commands_of [] = []
  commands_of (r ∷ rs) = for_parsed (init_command r.type (data_of_request r)) ++ commands_of rs

  push_command-for_parsed :
      (r : Request)
      → push_command read_exact read_length init_command r.type (data_of_request r)
        ≡ for_parsed (init_command r.type (data_of_request r))
  unfolding push_command
  push_command-for_parsed r = ground arith

  -- The loop reads requests as they were written until the object is closed: if `closed_` is seen for the
  -- first time after `k` rounds, it ends with the commands of the first `k` requests pushed, or of all if
  -- there are no more, in their order. For a request that `init` of the command refuses it pushes a
  -- corrupted one, and none if this throws; the requests behind it are read all the same.
  pub worker_loop-encode_requests :
      (k : ℕ) (rs : List Request) (readings : List Bool)
      → All IsRequest rs
      → worker_loop read_exact read_length init_command
          (replicate k false ++ true ∷ readings)
          (encode_requests encode_length rs)
        ≡ some (ended, commands_of (take k rs))
  unfolding worker_loop commands_of
  worker_loop-encode_requests zero [] readings h = refl
  worker_loop-encode_requests zero (r ∷ rs) readings h = refl
  worker_loop-encode_requests (suc k) [] readings h = refl
  worker_loop-encode_requests (suc k) (r ∷ rs) readings h =
      rw
        (get_data-encode_parts encode_length read_exact read_length exact reads_length r.type
          r.parts (encode_requests encode_length rs) h.0.sent h.0.few h.0.can_be_written)
        (ap
            (before read_exact read_length init_command
              (push_command read_exact read_length init_command r.type (data_of_request r)))
            (worker_loop-encode_requests k rs readings h.1)
          ∙ ap (λ ps. some (ended, ps ++ commands_of (take k rs))) (push_command-for_parsed r))
