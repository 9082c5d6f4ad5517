-- ===== src/Ctrl/Receiver.antt =====
-- src/sched-lib/ctrl/receiver.{h,cpp}: how a request is read from the input, a list of bytes. The functions
-- `swm_read_exact` and `swm_read_length` come from another repository and are parameters. A `char` is
-- signed: a byte from 128 on is a negative number.
pub mod Messages
pub mod Loop
pub mod Requests
mod Tests
use swm_sched.Prelude.{
  ℕ, suc, zero, ◌+◌, ◌-◌, ◌^◌, ◌%◌, ℕ_eq, Bool, true, false, not, ◌&&◌, List, [], ◌∷◌, ◌++◌, Option,
  none, some, if◌then◌else◌, ◌==◌, ltb, leb, get_or, set, replicate, contains,
}

pub data ReceiverError : Type 0 where
  no_command no_total no_type no_length no_data : ReceiverError
  unknown_command wrong_type : ℕ → ReceiverError

-- What `get_data` ends with: false, the data of a command, the exception of `resize` (a
-- `std::length_error`), or an access outside of the vector.
pub data Received : Type 0 where
  refused : ReceiverError → Received
  received : ℕ → List (Option (List ℕ)) → List ℕ → Received
  throws_length_error out_of_range : Received

-- `CommandType` in constants.h, without the value that is not sent: schedule, interrupt, metrics and
-- exchange.
abbrev pub sent_commands : List ℕ
sent_commands = 0 ∷ 1 ∷ 2 ∷ 3 ∷ []

abbrev pub is_negative : ℕ → Bool
is_negative byte = leb 128 byte

-- A `char` as a `size_t`.
abbrev pub to_size : ℕ → ℕ
to_size byte = if is_negative byte then 2 ^ 64 - (256 - byte) else byte

-- `vector::max_size()` for pointers of 8 bytes, and `resize` of the cleared vector, which throws for more.
abbrev pub max_size : ℕ
max_size = 2 ^ 60 - 1

unfoldable pub resize : ℕ → Option (List (Option (List ℕ)))
resize n = if ltb max_size n then none else some (replicate n none)

module _ (read_exact : ℕ → List ℕ → Option (List ℕ × List ℕ))
    (read_length : List ℕ → Option (ℕ × List ℕ)) where
  -- `swm_read_exact(input_, &c, 1)`
  abbrev pub read_char : List ℕ → Option (ℕ × List ℕ)
  read_char input = elim (read_exact 1 input) [
    | none ↦ none
    | some (bytes, rest) ↦ some (get_or bytes 0 0, rest)
  ]

  -- The loop, with the count of the rounds to go. `len` is a `uint32_t`. A negative `type` passes the test against `total`.
  unfoldable pub read_parts : ℕ → ℕ → ℕ → List (Option (List ℕ)) → List ℕ → Received
  read_parts zero command total data' input = received command data' input
  read_parts (suc rounds) command total data' input = elim (read_char input) [
    | none ↦ refused no_type
    | some (type, input') ↦
        if not (is_negative type) && leb total type
        then refused (wrong_type type)
        else elim (read_length input') [
          | none ↦ refused no_length
          | some (read, input'') ↦
              let len = read % 2 ^ 32 in
              if is_negative type then out_of_range else elim (read_exact len input'') [
                | none ↦ refused no_data
                | some (bytes, rest) ↦
                    read_parts rounds command total (set data' type (some bytes)) rest
              ]
        ]
  ]

  unfoldable pub get_data : List ℕ → Received
  unfolding read_parts resize
  get_data input = elim (read_char input) [
    | none ↦ refused no_command
    | some (command, input') ↦
        if not (contains command sent_commands)
        then refused (unknown_command command)
        else elim (read_char input') [
          | none ↦ refused no_total
          | some (total, input'') ↦ elim (resize (to_size total)) [
            | none ↦ throws_length_error
            | some data' ↦ read_parts total command total data' input''
          ]
        ]
  ]
