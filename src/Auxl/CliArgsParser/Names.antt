-- ===== src/Auxl/CliArgsParser/Names.antt =====
-- src/sched-lib/auxl/cli_args_parser.cpp: lists of the flags that are used, each by a name that is free.
use swm_sched.Prelude.{
  sym, Bool, not, ◌&&◌, ◌||◌, ◌==◌, str_eq_iff, ◌≡◌, refl, ap, ◌∙◌, String, String_eq, ℕ_eq, false,
  List, [], ◌∷◌, none, some, arith, contains,
}
use swm_sched.Auxl.CliArgsParser.{
  SimpleFlag, ValuedFlag, CliArgsParser, find_simple_flag, find_valued_flag, meet,
}

-- A flag with the name that is written, and its value.
pub data Use : Type 0 where
  simple_use : String → SimpleFlag → Use
  valued_use : String → ValuedFlag → String → Use

abbrev pub spell_all : List Use → List String
spell_all [] = []
spell_all (simple_use name f ∷ us) = name ∷ spell_all us
spell_all (valued_use name f value ∷ us) = name ∷ value ∷ spell_all us

-- The names of earlier flags, the short and the long one, are taken. The empty name never is.
abbrev pub is_taken : String → List (String × String) → Bool
is_taken name [] = false
is_taken name ((short_name, long_name) ∷ earlier) =
    (not (name == "") && (name == short_name || name == long_name)) || is_taken name earlier

-- The parser knows the names, and none is taken by an earlier use.
abbrev pub AreUses : CliArgsParser → List (String × String) → List Use → Type 0
AreUses p earlier [] = Unit
AreUses p earlier (simple_use name f ∷ us) =
    (is_taken name earlier ≡ false)
    × ((find_simple_flag name p ≡ some f) × AreUses p ((f.short_name, f.long_name) ∷ earlier) us)
AreUses p earlier (valued_use name f value ∷ us) =
    (is_taken name earlier ≡ false)
    × ((find_simple_flag name p ≡ none)
        × ((find_valued_flag name p ≡ some f)
            × AreUses p ((f.short_name, f.long_name) ∷ earlier) us))

-- The names that the code has met after these flags.
abbrev pub met_by : List (String × String) → List String
met_by [] = []
met_by ((short_name, long_name) ∷ earlier) = meet short_name long_name (met_by earlier)

contains-meet :
    (name short_name long_name : String) (met : List String)
    → contains name (meet short_name long_name met)
      ≡ ((not (name == "") && (name == short_name || name == long_name)) || contains name met)
contains-meet name short_name long_name met = grind (
  arith,
  str_eq_iff name "",
  str_eq_iff name short_name,
  str_eq_iff name long_name,
  str_eq_iff short_name "",
  str_eq_iff long_name "",
)

contains-met_by :
    (name : String) (earlier : List (String × String))
    → contains name (met_by earlier) ≡ is_taken name earlier
contains-met_by name [] = refl
contains-met_by name ((short_name, long_name) ∷ earlier) =
    contains-meet name short_name long_name (met_by earlier)
    ∙ ap (λ t. (not (name == "") && (name == short_name || name == long_name)) || t)
        (contains-met_by name earlier)

-- The same with the names that were met.
abbrev pub AreMet : CliArgsParser → List String → List Use → Type 0
AreMet p met [] = Unit
AreMet p met (simple_use name f ∷ us) =
    (contains name met ≡ false)
    × ((find_simple_flag name p ≡ some f) × AreMet p (meet f.short_name f.long_name met) us)
AreMet p met (valued_use name f value ∷ us) =
    (contains name met ≡ false)
    × ((find_simple_flag name p ≡ none)
        × ((find_valued_flag name p ≡ some f) × AreMet p (meet f.short_name f.long_name met) us))

pub AreUses-AreMet :
    (p : CliArgsParser) (us : List Use) (earlier : List (String × String))
    → AreUses p earlier us
    → AreMet p (met_by earlier) us
AreUses-AreMet p [] earlier h = tt
AreUses-AreMet p (simple_use name f ∷ us) earlier h = (
  contains-met_by name earlier ∙ h.0,
  (h.1.0, AreUses-AreMet p us ((f.short_name, f.long_name) ∷ earlier) h.1.1),
)
AreUses-AreMet p (valued_use name f value ∷ us) earlier h = (
  contains-met_by name earlier ∙ h.0,
  (h.1.0, (h.1.1.0, AreUses-AreMet p us ((f.short_name, f.long_name) ∷ earlier) h.1.1.1)),
)

pub AreMet-AreUses :
    (p : CliArgsParser) (us : List Use) (earlier : List (String × String))
    → AreMet p (met_by earlier) us
    → AreUses p earlier us
AreMet-AreUses p [] earlier h = tt
AreMet-AreUses p (simple_use name f ∷ us) earlier h = (
  sym (contains-met_by name earlier) ∙ h.0,
  (h.1.0, AreMet-AreUses p us ((f.short_name, f.long_name) ∷ earlier) h.1.1),
)
AreMet-AreUses p (valued_use name f value ∷ us) earlier h = (
  sym (contains-met_by name earlier) ∙ h.0,
  (h.1.0, (h.1.1.0, AreMet-AreUses p us ((f.short_name, f.long_name) ∷ earlier) h.1.1.1)),
)
