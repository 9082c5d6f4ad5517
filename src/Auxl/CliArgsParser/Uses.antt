-- ===== src/Auxl/CliArgsParser/Uses.antt =====
-- src/sched-lib/auxl/cli_args_parser.cpp: command lines as lists of the flags that are used.
use swm_sched.Prelude.{
  ◌||◌, ℕ, ◌+◌, ◌≡◌, refl, ap, ◌∙◌, ◌↔◌, inl, inr, String, String_eq, ℕ_eq, false, List, [], ◌∷◌,
  none, some, arith, contains, length, Bool-cases, Option-cases, subst,
}
use swm_sched.Auxl.CliArgsParser.{
  SimpleFlag, ValuedFlag, CliArgsParser, Memory, find_simple_flag, find_valued_flag, meet, Parsed,
  succeeds_with, use_simple, use_valued, parse_args, parse,
}
use swm_sched.Auxl.CliArgsParser.Names.{
  Use, simple_use, valued_use, spell_all, AreUses, AreMet, AreUses-AreMet, AreMet-AreUses,
}
use swm_sched.Auxl.CliArgsParser.Effects.{
  effects, cleared, is_used, flag_after, value_after, effects-flags, effects-values, cleared-flags,
  cleared-values,
}

module _ (p : CliArgsParser) where
  parse_args-simple :
      (name : String) (rest : List String) (met : List String) (n : ℕ) (m : Memory) (f : SimpleFlag)
      → contains name met ≡ false
      → find_simple_flag name p ≡ some f
      → parse_args p (name ∷ rest) met n m
        ≡ parse_args p rest (meet f.short_name f.long_name met) (n + 1) (use_simple f m)
  unfolding parse_args
  parse_args-simple name [] met n m f new found = rw (new, found, parse_args) refl
  parse_args-simple name (next ∷ rest) met n m f new found = rw (new, found, parse_args) refl

  parse_args-valued :
      (name value : String) (rest : List String) (met : List String) (n : ℕ) (m : Memory)
      (f : ValuedFlag)
      → contains name met ≡ false
      → find_simple_flag name p ≡ none
      → find_valued_flag name p ≡ some f
      → parse_args p (name ∷ value ∷ rest) met n m
        ≡ parse_args p rest (meet f.short_name f.long_name met) (n + 1) (use_valued f value m)
  unfolding parse_args
  parse_args-valued name value rest met n m f new missing found =
      rw (new, missing, found, parse_args) refl

  counted : (k l : ℕ) (m : Memory) → k ≡ l → succeeds_with k m ≡ succeeds_with l m
  counted k l m e = ap (λ j. succeeds_with j m) e

  spell_all-parse_args :
      (us : List Use) (met : List String) (n : ℕ) (m : Memory)
      → AreMet p met us
      → parse_args p (spell_all us) met n m ≡ succeeds_with (n + length us) (effects us m)
  unfolding parse_args
  spell_all-parse_args [] met n m h = counted n (n + 0) m (omega arith)
  spell_all-parse_args (simple_use name f ∷ us) met n m h =
      parse_args-simple name (spell_all us) met n m f h.0 h.1.0
      ∙ spell_all-parse_args us (meet f.short_name f.long_name met) (n + 1) (use_simple f m) h.1.1
      ∙ counted (n + 1 + length us) (n + length (simple_use name f ∷ us))
          (effects us (use_simple f m)) (omega arith)
  spell_all-parse_args (valued_use name f value ∷ us) met n m h =
      parse_args-valued name value (spell_all us) met n m f h.0 h.1.0 h.1.1.0
      ∙ spell_all-parse_args us (meet f.short_name f.long_name met) (n + 1) (use_valued f value m)
          h.1.1.1
      ∙ counted (n + 1 + length us) (n + length (valued_use name f value ∷ us))
          (effects us (use_valued f value m)) (omega arith)

  parse_args-AreMet :
      (args met : List String) (n : ℕ) (m : Memory)
      → (parse_args p args met n m).error ≡ none
      → (us : List Use) × (args ≡ spell_all us) × AreMet p met us
  unfolding parse_args
  parse_args-AreMet [] met n m e = ([], refl, tt)
  parse_args-AreMet (name ∷ []) met n m e = elim (Bool-cases (contains name met)) [
    | inl again ↦ absurd (ground arith)
    | inr new ↦ elim (Option-cases (find_simple_flag name p)) [
      | inr (f, found) ↦ (simple_use name f ∷ [], refl, (new, (found, tt)))
      | inl missing ↦ elim (Option-cases (find_valued_flag name p)) [
        | inl unknown ↦ absurd (ground arith)
        | inr (f, found) ↦ absurd (ground arith)
      ]
    ]
  ]
  parse_args-AreMet (name ∷ value ∷ rest) met n m e = elim (Bool-cases (contains name met)) [
    | inl again ↦ absurd (let bad = rw (again, parse_args) at e in cc)
    | inr new ↦ elim (Option-cases (find_simple_flag name p)) [
      | inr (f, found) ↦
          let (us, same, uses) =
            parse_args-AreMet (value ∷ rest) (meet f.short_name f.long_name met) (n + 1)
              (use_simple f m)
              (subst (λ (r : Parsed). r.error ≡ none)
                (parse_args-simple name (value ∷ rest) met n m f new found) e) in
          (simple_use name f ∷ us, ap (◌∷◌ name) same, (new, (found, uses)))
      | inl missing ↦ elim (Option-cases (find_valued_flag name p)) [
        | inl unknown ↦ absurd (let bad = rw (new, missing, unknown, parse_args) at e in cc)
        | inr (f, found) ↦
            let (us, same, uses) =
              parse_args-AreMet rest (meet f.short_name f.long_name met) (n + 1)
                (use_valued f value m)
                (subst (λ (r : Parsed). r.error ≡ none)
                  (parse_args-valued name value rest met n m f new missing found) e) in
            (
              valued_use name f value ∷ us,
              ap (λ k. name ∷ value ∷ k) same,
              (new, (missing, (found, uses))),
            )
      ]
    ]
  ]

  -- A command line is accepted exactly when it spells uses of registered flags, of which none goes by a
  -- name, other than the empty one, of a flag that was used before it.
  pub parse-AreUses :
      (program : String) (args : List String) (m : Memory)
      → ((r : Parsed) × (parse p (program ∷ args) m ≡ some r) × (r.error ≡ none))
        ↔ ((us : List Use) × (args ≡ spell_all us) × AreUses p [] us)
  unfolding parse
  parse-AreUses program args m = (
    λ (r, e, good).
        let (us, same, met) = parse_args-AreMet args [] 0 (cleared p m) (ground arith) in
        (us, same, AreMet-AreUses p us [] met),
    λ (us, same, uses). (
      _,
      refl,
      rw same (
          ap (λ (r : Parsed). r.error)
            (spell_all-parse_args us [] 0 (cleared p m) (AreUses-AreMet p us [] uses))),
    ),
  )

  -- A command line that spells uses of registered flags, of which none goes by a name, other than the
  -- empty one, of a flag that was used before it, is accepted, and its uses are counted. Afterwards a flag
  -- is true if it was used, and false if it is registered and was not; a value is the last one that stands
  -- behind a flag with it; all else in the memory stays.
  pub spell_all-parse :
      (program : String) (us : List Use) (m : Memory)
      → AreUses p [] us
      → (r : Parsed) × (parse p (program ∷ spell_all us) m ≡ some r)
        × (r.error ≡ none)
        × (r.flag_num ≡ length us)
        × ((k : ℕ) → r.memory.flags k ≡ flag_after p us m k)
        × ((k : ℕ) → r.memory.values k ≡ value_after us k (m.values k))
  unfolding parse
  spell_all-parse program us m h = (
    succeeds_with (length us) (effects us (cleared p m)),
    ap some (
        spell_all-parse_args us [] 0 (cleared p m) (AreUses-AreMet p us [] h)
        ∙ counted (0 + length us) (length us) (effects us (cleared p m)) (omega arith)),
    refl,
    refl,
    λ k. effects-flags us (cleared p m) k ∙ ap (λ b. is_used us k || b) (cleared-flags p m k),
    λ k. effects-values us (cleared p m) k ∙ ap (value_after us k) (cleared-values p m k),
  )
