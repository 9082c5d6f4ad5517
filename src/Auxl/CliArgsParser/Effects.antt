-- ===== src/Auxl/CliArgsParser/Effects.antt =====
-- What uses of flags leave in the memory, for src/sched-lib/auxl/cli_args_parser.cpp.
use swm_sched.Prelude.{
  Bool, not, ◌&&◌, ◌||◌, any, if◌then◌else◌, ◌==◌, ℕ, ◌≡◌, refl, ◌∙◌, String, String_eq, ℕ_eq,
  false, List, [], ◌∷◌, arith,
}
use swm_sched.Auxl.CliArgsParser.{
  SimpleFlag, ValuedFlag, CliArgsParser, Memory, clear_simple, clear_valued, set_flag, use_simple,
  use_valued,
}
use swm_sched.Auxl.CliArgsParser.Names.{Use, simple_use, valued_use}

abbrev pub effects : List Use → Memory → Memory
effects [] m = m
effects (simple_use name f ∷ us) m = effects us (use_simple f m)
effects (valued_use name f value ∷ us) m = effects us (use_valued f value m)

abbrev pub cleared : CliArgsParser → Memory → Memory
cleared p m = clear_valued p.valued_flags (clear_simple p.simple_flags m)

-- Whether the flag at an address is used, or registered.
abbrev pub is_used : List Use → ℕ → Bool
is_used [] k = false
is_used (simple_use name f ∷ us) k = k == f.flag_ptr || is_used us k
is_used (valued_use name f value ∷ us) k = k == f.flag_ptr || is_used us k

abbrev pub is_flag : CliArgsParser → ℕ → Bool
is_flag p k =
    any (λ (f : SimpleFlag). k == f.flag_ptr) p.simple_flags
    || any (λ (f : ValuedFlag). k == f.flag_ptr) p.valued_flags

abbrev pub flag_after : CliArgsParser → List Use → Memory → ℕ → Bool
flag_after p us m k = is_used us k || (not (is_flag p k) && m.flags k)

-- The last value that is written to an address, or the one before.
abbrev pub value_after : List Use → ℕ → String → String
value_after [] k v = v
value_after (simple_use name f ∷ us) k v = value_after us k v
value_after (valued_use name f value ∷ us) k v =
    value_after us k (if k == f.value_ptr then value else v)

pub effects-flags :
    (us : List Use) (m : Memory) (k : ℕ) → (effects us m).flags k ≡ (is_used us k || m.flags k)
effects-flags [] m k = refl
effects-flags (simple_use name f ∷ us) m k = effects-flags us (use_simple f m) k ∙ ground arith
effects-flags (valued_use name f value ∷ us) m k =
    effects-flags us (use_valued f value m) k ∙ ground arith

pub effects-values :
    (us : List Use) (m : Memory) (k : ℕ) → (effects us m).values k ≡ value_after us k (m.values k)
effects-values [] m k = refl
effects-values (simple_use name f ∷ us) m k = effects-values us (use_simple f m) k
effects-values (valued_use name f value ∷ us) m k = effects-values us (use_valued f value m) k

clear_simple-flags :
    (fs : List SimpleFlag) (m : Memory) (k : ℕ)
    → (clear_simple fs m).flags k
      ≡ (not (any (λ (f : SimpleFlag). k == f.flag_ptr) fs) && m.flags k)
clear_simple-flags [] m k = refl
clear_simple-flags (f ∷ fs) m k =
    clear_simple-flags fs (set_flag f.flag_ptr false m) k ∙ ground arith

clear_valued-flags :
    (fs : List ValuedFlag) (m : Memory) (k : ℕ)
    → (clear_valued fs m).flags k
      ≡ (not (any (λ (f : ValuedFlag). k == f.flag_ptr) fs) && m.flags k)
clear_valued-flags [] m k = refl
clear_valued-flags (f ∷ fs) m k =
    clear_valued-flags fs (set_flag f.flag_ptr false m) k ∙ ground arith

clear_simple-values :
    (fs : List SimpleFlag) (m : Memory) (k : ℕ) → (clear_simple fs m).values k ≡ m.values k
clear_simple-values [] m k = refl
clear_simple-values (f ∷ fs) m k = clear_simple-values fs (set_flag f.flag_ptr false m) k

clear_valued-values :
    (fs : List ValuedFlag) (m : Memory) (k : ℕ) → (clear_valued fs m).values k ≡ m.values k
clear_valued-values [] m k = refl
clear_valued-values (f ∷ fs) m k = clear_valued-values fs (set_flag f.flag_ptr false m) k

pub cleared-flags :
    (p : CliArgsParser) (m : Memory) (k : ℕ)
    → (cleared p m).flags k ≡ (not (is_flag p k) && m.flags k)
cleared-flags p m k = ground (
  arith,
  clear_valued-flags p.valued_flags (clear_simple p.simple_flags m) k,
  clear_simple-flags p.simple_flags m k,
)

pub cleared-values : (p : CliArgsParser) (m : Memory) (k : ℕ) → (cleared p m).values k ≡ m.values k
cleared-values p m k =
    clear_valued-values p.valued_flags (clear_simple p.simple_flags m) k
    ∙ clear_simple-values p.simple_flags m k
