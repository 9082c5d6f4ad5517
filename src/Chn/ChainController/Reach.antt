-- ===== src/Chn/ChainController/Reach.antt =====
-- The steps of a controller of src/sched-lib/chn/chain_controller.cpp, in any interleaving of its threads.
use swm_sched.Prelude.{◌≡◌, ◌≢◌, Bool, true, false, List, [], ◌∷◌, ◌++◌, some}
use swm_sched.Chn.ChainController.{
  Phase, starting, looping, calling, draining, notifying, ChainController, new_controller, init,
  invoke, close, start, enter_round, returned, drain, notify,
}

module _ {F : Type 0} where
  -- The functions that a step calls, with what they are called with.
  abbrev pub called : Phase F → List (F × Bool)
  called (calling func) = (func, false) ∷ []
  called _ = []

  abbrev pub skipped : List F → List (F × Bool)
  skipped [] = []
  skipped (func ∷ rest) = (func, true) ∷ []

  -- The controller after `init`, with the functions that were placed in the queue, the calls of the
  -- worker, and what the chain was found in at the end of the loop.
  pub data Reached : List F → List (F × Bool) → Bool → ChainController F → Type 0 where
    begins :
        (c : ChainController F) → init false true new_controller ≡ some c → Reached [] [] false c
    places :
        {placed : List F} {calls : List (F × Bool)} {won : Bool} {c d : ChainController F}
        (func : F)
        → Reached placed calls won c
        → ((succeeded : Bool) → c.phase ≢ draining succeeded)
        → invoke func c ≡ some (d, false)
        → Reached (placed ++ func ∷ []) calls won d
    closes :
        {placed : List F} {calls : List (F × Bool)} {won : Bool} {c : ChainController F}
        → Reached placed calls won c
        → Reached placed calls won (close c)
    starts :
        {placed : List F} {calls : List (F × Bool)} {won : Bool} {c : ChainController F}
        → Reached placed calls won c
        → c.phase ≡ starting
        → Reached placed calls won (start c)
    enters :
        {placed : List F} {calls : List (F × Bool)} {won : Bool} {c d : ChainController F}
        (chain_stopped chain_finished : Bool)
        → Reached placed calls won c
        → c.phase ≡ looping
        → d ≡ enter_round chain_stopped chain_finished c
        → Reached placed (calls ++ called d.phase) chain_finished d
    returns :
        {placed : List F} {calls : List (F × Bool)} {won : Bool} {c : ChainController F} (func : F)
        (stops : Bool)
        → Reached placed calls won c
        → c.phase ≡ calling func
        → Reached placed calls won (returned stops c)
    drains :
        {placed : List F} {calls : List (F × Bool)} {won : Bool} {c : ChainController F}
        (succeeded : Bool)
        → Reached placed calls won c
        → c.phase ≡ draining succeeded
        → Reached placed (calls ++ skipped c.queue) won (drain succeeded c)
    notifies :
        {placed : List F} {calls : List (F × Bool)} {won : Bool} {c : ChainController F}
        (succeeded : Bool)
        → Reached placed calls won c
        → c.phase ≡ notifying succeeded
        → Reached placed calls won (notify succeeded c)
