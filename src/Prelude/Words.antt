-- ===== src/Prelude/Words.antt =====
-- Machine words of the source: `uint64_t` and `size_t` wrap around at 2^64.
use Prim.Native.Nat.{ℕ, ◌+◌, ◌%◌, ◌^◌}

abbrev pub add64 : ℕ → ℕ → ℕ
add64 a b = (a + b) % 2 ^ 64
