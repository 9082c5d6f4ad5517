-- ===== src/Ctrl/Responses/Tokens.antt =====
-- The terms that src/sched-lib/ctrl/responses.cpp writes, as the sequence of what the calls of `ei` add
-- to a buffer one after another, and what the code relies on of those calls.
use swm_sched.Prelude.{ℕ, suc, ◌≡◌, String, false, List, [], ◌∷◌, ◌++◌}
use swm_sched.Ctrl.Responses.{EiX}

pub data Token {ℓ} (Double : Type ℓ) : Type ℓ where
  version list_end : Token Double
  list_header tuple_header number : ℕ → Token Double
  atom text : String → Token Double
  real : Double → Token Double

-- `Holds x ts`: the tokens `ts` were written to `x`. With enough memory no call fails.
pub record Writes (ei : EiX) (Holds : ei.Buff → List (Token ei.Double) → Type 0) : Type 0 where
  pub not_null : (x : ei.Buff) (ts : List (Token ei.Double)) → Holds x ts → ei.is_null x ≡ false
  pub new_buffer : (x : ei.Buff) × (ei.new ei.unset ≡ (false, x)) × Holds x []
  pub writes_version :
      (x : ei.Buff) (ts : List (Token ei.Double))
      → Holds x ts
      → (y : ei.Buff) × (ei.encode_version x ≡ (false, y)) × Holds y (ts ++ version ∷ [])
  pub writes_list_header :
      (n : ℕ) (x : ei.Buff) (ts : List (Token ei.Double))
      → Holds x ts
      → (y : ei.Buff) × (ei.encode_list_header n x ≡ (false, y))
        × Holds y (ts ++ list_header n ∷ [])
  pub writes_empty_list :
      (x : ei.Buff) (ts : List (Token ei.Double))
      → Holds x ts
      → (y : ei.Buff) × (ei.encode_empty_list x ≡ (false, y)) × Holds y (ts ++ list_end ∷ [])
  pub writes_tuple_header :
      (n : ℕ) (x : ei.Buff) (ts : List (Token ei.Double))
      → Holds x ts
      → (y : ei.Buff) × (ei.encode_tuple_header n x ≡ (false, y))
        × Holds y (ts ++ tuple_header n ∷ [])
  pub writes_atom :
      (s : String) (x : ei.Buff) (ts : List (Token ei.Double))
      → Holds x ts
      → (y : ei.Buff) × (ei.encode_atom s x ≡ (false, y)) × Holds y (ts ++ atom s ∷ [])
  pub writes_string :
      (s : String) (x : ei.Buff) (ts : List (Token ei.Double))
      → Holds x ts
      → (y : ei.Buff) × (ei.encode_string s x ≡ (false, y)) × Holds y (ts ++ text s ∷ [])
  pub writes_ulong :
      (n : ℕ) (x : ei.Buff) (ts : List (Token ei.Double))
      → Holds x ts
      → (y : ei.Buff) × (ei.encode_ulong n x ≡ (false, y)) × Holds y (ts ++ number n ∷ [])
  pub writes_long :
      (n : ℕ) (x : ei.Buff) (ts : List (Token ei.Double))
      → Holds x ts
      → (y : ei.Buff) × (ei.encode_long n x ≡ (false, y)) × Holds y (ts ++ number n ∷ [])
  pub writes_double :
      (d : ei.Double) (x : ei.Buff) (ts : List (Token ei.Double))
      → Holds x ts
      → (y : ei.Buff) × (ei.encode_double d x ≡ (false, y)) × Holds y (ts ++ real d ∷ [])
  pub appends :
      (x y : ei.Buff) (ts us : List (Token ei.Double))
      → Holds x ts
      → Holds y us
      → (z : ei.Buff) × (ei.append y x ≡ (false, z)) × Holds z (ts ++ us)

-- Erlang's terms, and the tokens that stand for one.
mutual
  pub data Term {ℓ} (Double : Type ℓ) : Type ℓ where
    atom text : String → Term Double
    number : ℕ → Term Double
    real : Double → Term Double
    tuple list : Terms Double → Term Double

  pub data Terms {ℓ} (Double : Type ℓ) : Type ℓ where
    nil : Terms Double
    cons : Term Double → Terms Double → Terms Double

module _ {ℓ} {D : Type ℓ} where
  abbrev pub number_of : Terms D → ℕ
  number_of nil = 0
  number_of (cons t ts) = suc (number_of ts)

  abbrev pub end_of : Terms D → List (Token D)
  end_of nil = []
  end_of (cons t ts) = list_end ∷ []

  unfoldable mutual
    pub spell : Term D → List (Token D)
    spell (Term.atom s) = Token.atom s ∷ []
    spell (Term.text s) = Token.text s ∷ []
    spell (Term.number n) = Token.number n ∷ []
    spell (Term.real d) = Token.real d ∷ []
    spell (tuple ts) = tuple_header (number_of ts) ∷ spell_all ts
    spell (list ts) = list_header (number_of ts) ∷ (spell_all ts ++ end_of ts)

    pub spell_all : Terms D → List (Token D)
    spell_all nil = []
    spell_all (cons t ts) = spell t ++ spell_all ts

  abbrev pub terms {κ} : {A : Type κ} → (A → Term D) → List A → Terms D
  terms term [] = nil
  terms term (x ∷ xs) = cons (term x) (terms term xs)
