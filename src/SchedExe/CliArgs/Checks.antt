-- ===== src/SchedExe/CliArgs/Checks.antt =====
-- What `init` of src/sched-exe/cli_args.cpp accepts.
use swm_sched.Prelude.{
  subst, some-injective, ℕ, ◌≡◌, sym, ◌⊎◌, inl, inr, String, String_eq, ℕ_eq, Bool, true, false,
  not, ◌&&◌, List, none, some, arith, ◌==◌, nat_eq_iff, Bool-cases, Option-cases,
}
use swm_sched.Auxl.CliArgsParser.{Memory, Parsed, parse}
use swm_sched.SchedExe.CliArgs.{
  Extracted, ExtractedDouble, CliArgs, help_flag, input_flag, plugins_flag, in_queue_flag,
  out_queue_flag, timeout_flag, try_parse, try_parse_double, read_timeout, read_out_queue,
  read_in_queue, check, init,
}

module _ {Double : Type 0} (file_exist directory_exist : String → Bool)
    (extract : String → Extracted) (extract_double : String → ExtractedDouble Double)
    (is_not_positive : Double → Bool) where
  -- A whole text that is a number, not negative or positive.
  pub record IsSize (e : Extracted) (n : ℕ) : Type 0 where
    pub is_number : e.good ≡ true
    pub whole : e.eof ≡ true
    pub not_negative : e.negative ≡ false
    pub written : e.size ≡ n

  pub record IsTime (e : ExtractedDouble Double) (t : Double) : Type 0 where
    pub is_number : e.good ≡ true
    pub whole : e.eof ≡ true
    pub positive : is_not_positive t ≡ false
    pub written : e.value ≡ t

  try_parse-IsSize :
      (text : String) (n : ℕ)
      → try_parse file_exist directory_exist extract extract_double is_not_positive text ≡ some n
      → IsSize (extract text) n
  try_parse-IsSize text n e = record {
    is_number = ground arith;
    whole = ground arith;
    not_negative = ground arith;
    written = ground arith;
  }

  try_parse_double-IsTime :
      (text : String) (t : Double)
      → try_parse_double file_exist directory_exist extract extract_double is_not_positive text
        ≡ some t
      → is_not_positive t ≡ false
      → IsTime (extract_double text) t
  try_parse_double-IsTime text t e p = record {
    is_number = ground arith;
    whole = ground arith;
    positive = p;
    written = ground arith;
  }

  -- The arguments fit together, and the numbers are those that are written.
  pub record IsAccepted (before : CliArgs Double) (r : Parsed) (after : CliArgs Double)
      : Type 0 where
    pub parsed : r.error ≡ none
    pub same_memory : after.memory ≡ r.memory
    pub help_alone : r.memory.flags help_flag ≡ true → r.flag_num ≡ 1
    pub input_exists :
        r.memory.flags input_flag ≡ true → file_exist (r.memory.values input_flag) ≡ true
    pub plugins_exist :
        r.memory.flags plugins_flag ≡ true → directory_exist (r.memory.values plugins_flag) ≡ true
    pub in_queue :
        ((r.memory.flags in_queue_flag ≡ false) × (after.in_queue_pvalue ≡ before.in_queue_pvalue))
        ⊎ ((r.memory.flags in_queue_flag ≡ true)
            × IsSize (extract (r.memory.values in_queue_flag)) after.in_queue_pvalue)
    pub out_queue :
        ((r.memory.flags out_queue_flag ≡ false)
          × (after.out_queue_pvalue ≡ before.out_queue_pvalue))
        ⊎ ((r.memory.flags out_queue_flag ≡ true)
            × IsSize (extract (r.memory.values out_queue_flag)) after.out_queue_pvalue)
    pub timeout :
        ((r.memory.flags timeout_flag ≡ false) × (after.timeout_pvalue ≡ before.timeout_pvalue))
        ⊎ ((r.memory.flags timeout_flag ≡ true)
            × IsTime (extract_double (r.memory.values timeout_flag)) after.timeout_pvalue)

  -- The number of a flag, before and after.
  abbrev Reads : ℕ → Memory → ℕ → ℕ → Type 0
  Reads flag m before after =
      ((m.flags flag ≡ false) × (after ≡ before))
      ⊎ ((m.flags flag ≡ true) × IsSize (extract (m.values flag)) after)

  abbrev ReadsTimeout : Memory → Double → Double → Type 0
  ReadsTimeout m before after =
      ((m.flags timeout_flag ≡ false) × (after ≡ before))
      ⊎ ((m.flags timeout_flag ≡ true) × IsTime (extract_double (m.values timeout_flag)) after)

  read_timeout_lem :
      (c d : CliArgs Double)
      → read_timeout file_exist directory_exist extract extract_double is_not_positive c ≡ (d, none)
      → ((d.memory ≡ c.memory)
          × ((d.in_queue_pvalue ≡ c.in_queue_pvalue) × (d.out_queue_pvalue ≡ c.out_queue_pvalue)))
        × ReadsTimeout c.memory c.timeout_pvalue d.timeout_pvalue
  read_timeout_lem c d e = elim (Bool-cases (c.memory.flags timeout_flag)) [
    | inr unset ↦ ground arith
    | inl set ↦
        elim (Option-cases (
          try_parse_double file_exist directory_exist extract extract_double is_not_positive
            (c.memory.values timeout_flag))) [
              | inl bad ↦ ground arith
              | inr (t, good) ↦ elim (Bool-cases (is_not_positive t)) [
                | inl low ↦ ground arith
                | inr high ↦ ground arith
              ]
            ]
  ]

  read_out_queue_lem :
      (c d : CliArgs Double)
      → read_out_queue file_exist directory_exist extract extract_double is_not_positive c
        ≡ (d, none)
      → ((d.memory ≡ c.memory) × (d.in_queue_pvalue ≡ c.in_queue_pvalue))
        × (Reads out_queue_flag c.memory c.out_queue_pvalue d.out_queue_pvalue
            × ReadsTimeout c.memory c.timeout_pvalue d.timeout_pvalue)
  read_out_queue_lem c d e = elim (Bool-cases (c.memory.flags out_queue_flag)) [
    | inr unset ↦
        let rest = read_timeout_lem c d (rw unset at e) in
        ((rest.0.0, rest.0.1.0), (inl (unset, rest.0.1.1), rest.1))
    | inl set ↦
        elim (Option-cases (
          try_parse file_exist directory_exist extract extract_double is_not_positive
            (c.memory.values out_queue_flag))) [
              | inl bad ↦ absurd (ground arith)
              | inr (n, good) ↦
                  let rest =
                    read_timeout_lem (record c { out_queue_pvalue = n }) d (rw (set, good) at e) in
                  (
                    (rest.0.0, rest.0.1.0),
                    (
                      inr (set, subst (IsSize _) (sym rest.0.1.1) (try_parse-IsSize _ n good)),
                      rest.1,
                    ),
                  )
            ]
  ]

  read_in_queue_lem :
      (c d : CliArgs Double)
      → read_in_queue file_exist directory_exist extract extract_double is_not_positive c
        ≡ (d, none)
      → (d.memory ≡ c.memory)
        × (Reads in_queue_flag c.memory c.in_queue_pvalue d.in_queue_pvalue
            × (Reads out_queue_flag c.memory c.out_queue_pvalue d.out_queue_pvalue
                × ReadsTimeout c.memory c.timeout_pvalue d.timeout_pvalue))
  read_in_queue_lem c d e = elim (Bool-cases (c.memory.flags in_queue_flag)) [
    | inr unset ↦
        let rest = read_out_queue_lem c d (rw unset at e) in
        (rest.0.0, (inl (unset, rest.0.1), rest.1))
    | inl set ↦
        elim (Option-cases (
          try_parse file_exist directory_exist extract extract_double is_not_positive
            (c.memory.values in_queue_flag))) [
              | inl bad ↦ absurd (ground arith)
              | inr (n, good) ↦
                  let rest =
                    read_out_queue_lem (record c { in_queue_pvalue = n }) d (rw (set, good) at e) in
                  (
                    rest.0.0,
                    (
                      inr (set, subst (IsSize _) (sym rest.0.1) (try_parse-IsSize _ n good)),
                      rest.1,
                    ),
                  )
            ]
  ]

  check_lem :
      (n : ℕ) (c d : CliArgs Double)
      → check file_exist directory_exist extract extract_double is_not_positive n c ≡ (d, none)
      → ((c.memory.flags help_flag ≡ true → n ≡ 1)
          × ((c.memory.flags input_flag ≡ true → file_exist (c.memory.values input_flag) ≡ true)
              × (c.memory.flags plugins_flag ≡ true
                  → directory_exist (c.memory.values plugins_flag) ≡ true)))
        × (read_in_queue file_exist directory_exist extract extract_double is_not_positive c
            ≡ (d, none))
  unfolding check
  check_lem n c d e = elim (Bool-cases (c.memory.flags help_flag && not (n == 1))) [
    | inl bad ↦ absurd (let h = rw (bad, check) at e in ground arith)
    | inr good ↦
        elim (Bool-cases
          (c.memory.flags input_flag && not (file_exist (c.memory.values input_flag)))) [
            | inl bad ↦ absurd (let h = rw (good, bad, check) at e in ground arith)
            | inr good' ↦
                elim (Bool-cases (
                  c.memory.flags plugins_flag
                  && not (directory_exist (c.memory.values plugins_flag)))) [
                    | inl bad ↦ absurd (let h = rw (good, good', bad, check) at e in ground arith)
                    | inr fine ↦ (
                      (λ h. ground (arith, nat_eq_iff n 1), (λ h. ground arith, λ h. ground arith)),
                      rw (good, good', fine, check) at e,
                    )
                  ]
          ]
  ]

  -- A command line that `init` accepts was parsed; help is asked for alone; an input file and a
  -- directory of plugins that are named exist. With its flag, the size of a queue is the number that the
  -- whole text behind the flag is read as, not negative, and the timeout likewise, positive; without it,
  -- it stays as it was.
  pub init-IsAccepted :
      (argv : List String) (c d : CliArgs Double)
      → init file_exist directory_exist extract extract_double is_not_positive argv c
        ≡ some (d, none)
      → (r : Parsed) × (parse c.parser argv c.memory ≡ some r) × IsAccepted c r d
  unfolding init
  init-IsAccepted argv c d e = elim (Option-cases (parse c.parser argv c.memory)) [
    | inl thrown ↦ absurd (ground arith)
    | inr (r, parsed) ↦ elim (Option-cases r.error) [
      | inr (k, bad) ↦ absurd (let h = rw (parsed, bad, init) at e in ground arith)
      | inl fine ↦
          let c' : CliArgs Double = record c { memory = r.memory } in
          let checked : check file_exist directory_exist extract extract_double is_not_positive
                r.flag_num c'
              ≡ (d, none) =
            some-injective _ _ (rw (parsed, fine, init) at e) in
          let (guards, read) = check_lem r.flag_num c' d checked in
          let numbers = read_in_queue_lem c' d read in
          (
            r,
            parsed,
            record {
              parsed = fine;
              same_memory = numbers.0;
              help_alone = guards.0;
              input_exists = guards.1.0;
              plugins_exist = guards.1.1;
              in_queue = numbers.1.0;
              out_queue = numbers.1.1.0;
              timeout = numbers.1.1.1;
            },
          )
    ]
  ]
