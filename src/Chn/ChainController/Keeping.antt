-- ===== src/Chn/ChainController/Keeping.antt =====
-- What a step of one side of an exchange in src/sched-lib/chn/chain_controller.cpp keeps.
use swm_sched.Prelude.{◌≡◌, Bool, true, false, ◌||◌, Option, none, some, arith}
use swm_sched.Chn.Chain.{Chain, actual_timetable, ready_for_async_operation, inject_timetable_async}
use swm_sched.Chn.ChainController.Exchange.{
  is_injecting, is_failed, ExchangePhase, asked, waits_target, checks_target, takes, waits_taken,
  checks_taken, waits_ready, checks_ready, waits_injecting, checks_injecting, injects, threw, told,
  Side, take, wait_ready, check_ready, injected, inject, exchange_at,
}

-- The function waits for the other side to inject, or injects, or has told its callback true.
abbrev pub agreed : ExchangePhase → Bool
agreed waits_injecting = true
agreed checks_injecting = true
agreed injects = true
agreed (told b) = b
agreed _ = false

-- The function injects, or has told its callback true.
abbrev pub committed : ExchangePhase → Bool
committed injects = true
committed (told b) = b
committed _ = false

module _ {T : Type 0} where
  -- A side that shows the stage of injecting has agreed, and the other way round, but for a failure.
  pub record Honest (s : Side T) : Type 0 where
    pub shown : is_injecting s.stage ≡ true → agreed s.phase ≡ true
    pub shows : agreed s.phase ≡ true → (is_injecting s.stage || is_failed s.stage) ≡ true

  abbrev pub Backed : Side T → Side T → Type 0
  Backed s target =
      committed s.phase ≡ true → is_failed s.stage ≡ false → agreed target.phase ≡ true

  -- What a step of a side keeps.
  pub record Kept (target s s' : Side T) : Type 0 where
    pub honest : Honest s'
    pub backed : Backed s' target
    pub stays : agreed s.phase ≡ true → is_injecting target.stage ≡ true → agreed s'.phase ≡ true

  take-Kept :
      (o : Option (Option T)) (target s : Side T)
      → s.phase ≡ takes
      → Honest s
      → Honest target
      → Backed s target
      → Kept target s (take o s)
  take-Kept none target s e h t b = record {
    honest = record { shown = ground arith; shows = ground arith };
    backed = ground arith;
    stays = ground arith;
  }
  take-Kept (some none) target s e h t b = record {
    honest = record { shown = ground arith; shows = ground arith };
    backed = ground arith;
    stays = ground arith;
  }
  take-Kept (some (some tt)) target s e h t b = record {
    honest = record { shown = ground arith; shows = ground arith };
    backed = ground arith;
    stays = ground arith;
  }

  wait_ready-Kept :
      (expired : Bool) (o : Option Bool) (target s : Side T)
      → s.phase ≡ waits_ready
      → Honest s
      → Honest target
      → Backed s target
      → Kept target s (wait_ready expired o s)
  wait_ready-Kept expired none target s e h t b = record {
    honest = record { shown = ground arith; shows = ground arith };
    backed = ground arith;
    stays = ground arith;
  }
  wait_ready-Kept expired (some ready) target s e h t b = record {
    honest = record { shown = ground arith; shows = ground arith };
    backed = ground arith;
    stays = ground arith;
  }

  check_ready-Kept :
      (o : Option Bool) (target s : Side T)
      → s.phase ≡ checks_ready
      → Honest s
      → Honest target
      → Backed s target
      → Kept target s (check_ready o s)
  check_ready-Kept none target s e h t b = record {
    honest = record { shown = ground arith; shows = ground arith };
    backed = ground arith;
    stays = ground arith;
  }
  check_ready-Kept (some ready) target s e h t b = record {
    honest = record { shown = ground arith; shows = ground arith };
    backed = ground arith;
    stays = ground arith;
  }

  injected-Kept :
      (o : Option (Chain T)) (target s : Side T)
      → s.phase ≡ injects
      → Honest s
      → Honest target
      → Backed s target
      → Kept target s (injected o s)
  injected-Kept none target s e h t b = record {
    honest = record { shown = ground arith; shows = ground arith };
    backed = ground arith;
    stays = ground arith;
  }
  injected-Kept (some c) target s e h t b = record {
    honest = record { shown = ground arith; shows = ground arith };
    backed = ground arith;
    stays = ground arith;
  }

  inject-Kept :
      (o : Option (Option T)) (target s : Side T)
      → s.phase ≡ injects
      → Honest s
      → Honest target
      → Backed s target
      → Kept target s (inject o s)
  inject-Kept none target s e h t b = record {
    honest = record { shown = ground arith; shows = ground arith };
    backed = ground arith;
    stays = ground arith;
  }
  inject-Kept (some tt) target s e h t b =
      injected-Kept (inject_timetable_async tt s.chain) target s e h t b

  pub exchange_at-Kept :
      (p : ExchangePhase) (skipped expired : Bool) (target s : Side T)
      → s.phase ≡ p
      → Honest s
      → Honest target
      → Backed s target
      → Kept target s (exchange_at p skipped expired target s)
  exchange_at-Kept asked skipped expired target s e h t b = record {
    honest = record { shown = ground arith; shows = ground arith };
    backed = ground arith;
    stays = ground arith;
  }
  exchange_at-Kept waits_target skipped expired target s e h t b = record {
    honest = record { shown = ground arith; shows = ground arith };
    backed = ground arith;
    stays = ground arith;
  }
  exchange_at-Kept checks_target skipped expired target s e h t b = record {
    honest = record { shown = ground arith; shows = ground arith };
    backed = ground arith;
    stays = ground arith;
  }
  exchange_at-Kept waits_taken skipped expired target s e h t b = record {
    honest = record { shown = ground arith; shows = ground arith };
    backed = ground arith;
    stays = ground arith;
  }
  exchange_at-Kept checks_taken skipped expired target s e h t b = record {
    honest = record { shown = ground arith; shows = ground arith };
    backed = ground arith;
    stays = ground arith;
  }
  exchange_at-Kept waits_injecting skipped expired target s e h t b = record {
    honest = record { shown = ground arith; shows = ground arith };
    backed = ground arith;
    stays = ground arith;
  }
  exchange_at-Kept checks_injecting skipped expired target s e h t b = record {
    honest = record { shown = ground arith; shows = ground arith };
    backed = ground arith;
    stays = ground arith;
  }
  exchange_at-Kept takes skipped expired target s e h t b =
      take-Kept (actual_timetable target.chain) target s e h t b
  exchange_at-Kept waits_ready skipped expired target s e h t b =
      wait_ready-Kept expired (ready_for_async_operation s.chain) target s e h t b
  exchange_at-Kept checks_ready skipped expired target s e h t b =
      check_ready-Kept (ready_for_async_operation s.chain) target s e h t b
  exchange_at-Kept injects skipped expired target s e h t b =
      inject-Kept (actual_timetable target.chain) target s e h t b
  exchange_at-Kept threw skipped expired target s e h t b = record {
    honest = h;
    backed = b;
    stays = λ k i. k;
  }
  exchange_at-Kept (told x) skipped expired target s e h t b = record {
    honest = h;
    backed = b;
    stays = λ k i. k;
  }
