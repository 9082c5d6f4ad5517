-- ===== src/Ctrl/Receiver/Messages.antt =====
-- Requests as bytes, for src/sched-lib/ctrl/receiver.cpp.
use swm_sched.Prelude.{
  ℕ, ◌≡◌, ◌<◌, ◌^◌, refl, ℕ_eq, true, false, List, [], ◌∷◌, ◌++◌, Option, none, some, arith, leb,
  set, replicate, contains, length, All,
}
use native.Mathlib.Nat.{mod-eq_of_lt}
use swm_sched.Ctrl.Receiver.{
  received, sent_commands, is_negative, read_parts, get_data, to_size, resize,
}

-- A part of the data: its place in the vector, and its bytes.
pub record Part : Type 0 where
  pub type : ℕ
  pub bytes : List ℕ

-- A part that can be written among `total` ones: its length is not 0, which the reader takes for an
-- error, and fits into 32 bits.
pub record IsPart (total : ℕ) (p : Part) : Type 0 where
  pub in_range : p.type < total
  pub not_empty : 0 < length p.bytes
  pub fits : length p.bytes < 2 ^ 32

abbrev pub placed : List Part → List (Option (List ℕ)) → List (Option (List ℕ))
placed [] data' = data'
placed (p ∷ ps) data' = placed ps (set data' p.type (some p.bytes))

module _ (encode_length : ℕ → List ℕ) where
  abbrev pub encode_parts : List Part → List ℕ → List ℕ
  encode_parts [] rest = rest
  encode_parts (p ∷ ps) rest =
      p.type ∷ (encode_length (length p.bytes) ++ (p.bytes ++ encode_parts ps rest))

  module _ (read_exact : ℕ → List ℕ → Option (List ℕ × List ℕ))
      (read_length : List ℕ → Option (ℕ × List ℕ))
      (exact : (bytes rest : List ℕ)
        → read_exact (length bytes) (bytes ++ rest) ≡ some (bytes, rest))
      (reads_length : (n : ℕ) (rest : List ℕ)
        → 0 < n
        → n < 2 ^ 32
        → read_length (encode_length n ++ rest) ≡ some (n, rest)) where
    one_char : (c : ℕ) (rest : List ℕ) → read_exact 1 (c ∷ rest) ≡ some (c ∷ [], rest)
    one_char c rest = exact (c ∷ []) rest

    read_parts-encode_parts :
        (ps : List Part) (command total : ℕ) (data' : List (Option (List ℕ))) (rest : List ℕ)
        → total < 128
        → All (IsPart total) ps
        → read_parts read_exact read_length (length ps) command total data' (encode_parts ps rest)
          ≡ received command (placed ps data') rest
    unfolding read_parts
    read_parts-encode_parts [] command total data' rest small h = refl
    read_parts-encode_parts (p ∷ ps) command total data' rest small h =
        let after_bytes = encode_parts ps rest in
        let after_length = p.bytes ++ after_bytes in
        let after_type = encode_length (length p.bytes) ++ after_length in
        let positive : is_negative p.type ≡ false = ground (arith, h.0.in_range) in
        let in_range : leb total p.type ≡ false = ground (arith, h.0.in_range) in
        rw
          (
            one_char p.type after_type,
            positive,
            in_range,
            reads_length (length p.bytes) after_length h.0.not_empty h.0.fits,
            mod-eq_of_lt h.0.fits,
            positive,
            exact p.bytes after_bytes,
            read_parts,
          )
          (read_parts-encode_parts ps command total (set data' p.type (some p.bytes)) rest small
            h.1)

    resize_lem : (n : ℕ) → n < 128 → resize (to_size n) ≡ some (replicate n none)
    unfolding resize
    resize_lem n h = ground arith

    -- A request of at most 127 parts, each with a place below their number, not empty and shorter than
    -- 2 ^ 32 bytes, is read as it was written: `get_data` gives its command, each part at its place (the
    -- last one of those that share a place), and the rest of the input.
    pub get_data-encode_parts :
        (command : ℕ) (ps : List Part) (rest : List ℕ)
        → contains command sent_commands ≡ true
        → length ps < 128
        → All (IsPart (length ps)) ps
        → get_data read_exact read_length (command ∷ length ps ∷ encode_parts ps rest)
          ≡ received command (placed ps (replicate (length ps) none)) rest
    unfolding get_data
    get_data-encode_parts command ps rest sent small h =
        rw
          (
            one_char command (length ps ∷ encode_parts ps rest),
            sent,
            one_char (length ps) (encode_parts ps rest),
            resize_lem (length ps) small,
            get_data,
          )
          (read_parts-encode_parts ps command (length ps) (replicate (length ps) none) rest small h)
