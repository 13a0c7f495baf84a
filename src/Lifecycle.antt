-- ===== src/Lifecycle.antt =====
-- The `Closer` of internal/infrastructure/lifecycle/closer.go. A function that is registered is named by
-- a number. `ShutDown` waits for results and for deadlines, which arrive as events; a panic of a
-- function is a result too, and an abandoned function's result is read by nobody.
use task_tracker.Base.{
  ℕ, zero, suc, ◌+◌, ◌-◌, Bool, true, false, List, [], ◌∷◌, ◌++◌, map, length, if◌then◌else◌,
}
pub mod Starter
pub mod Order
pub mod Finish
pub mod Wait

pub data Phase : Type 0 where
  drain release : Phase

pub data Stage : Type 0 where
  idle draining releasing finished : Stage

-- `held` are the functions of the second phase while the first runs, `waiting` the results that the
-- running phase still waits for, `started` what has been started so far.
pub record Closer : Type 0 where
  pub close : List ℕ
  pub drain : List ℕ
  pub once : Bool
  pub stage : Stage
  pub held : List ℕ
  pub waiting : ℕ
  pub started : List (Phase × ℕ)

-- `NewCloser`
abbrev pub new_closer : Closer
new_closer = record {
  close = [];
  drain = [];
  once = false;
  stage = idle;
  held = [];
  waiting = 0;
  started = [];
}

-- `AddClose` and `AddDrain`
unfoldable pub add_close : List ℕ → Closer → Closer
add_close fs c = record c { close = c.close ++ fs }

unfoldable pub add_drain : List ℕ → Closer → Closer
add_drain fs c = record c { drain = c.drain ++ fs }

abbrev pub tagged : Phase → List ℕ → List (Phase × ℕ)
tagged p fs = map (λ f. (p, f)) fs

-- `runPhase` starts all its functions at once; it returns at once if there is none.
unfoldable pub run_release : List ℕ → Closer → Closer
run_release [] c = record c { stage = finished; waiting = 0 }
run_release (f ∷ fs) c = record c {
  stage = releasing;
  waiting = suc (length fs);
  started = c.started ++ tagged release (f ∷ fs);
}

unfoldable pub run_drain : List ℕ → Closer → Closer
unfolding run_release
run_drain [] c = run_release c.held c
run_drain (f ∷ fs) c = record c {
  stage = draining;
  waiting = suc (length fs);
  started = c.started ++ tagged drain (f ∷ fs);
}

-- `ShutDown`: the lists are taken once.
unfoldable pub shut_down : Closer → Closer
unfolding run_drain
shut_down c =
    if c.once
    then c
    else run_drain c.drain (record c { once = true; drain = []; close = []; held = c.close })

-- The end of the running phase: all its results, or its deadline.
unfoldable pub end_phase : Stage → Closer → Closer
unfolding run_release
end_phase draining c = run_release c.held c
end_phase releasing c = record c { stage = finished; waiting = 0 }
end_phase idle c = c
end_phase finished c = c

abbrev pub received : ℕ → Closer → Closer
received zero c = c
received (suc zero) c = end_phase c.stage (record c { waiting = 0 })
received (suc (suc n)) c = record c { waiting = suc n }

-- One result is read from the channel.
unfoldable pub result : Closer → Closer
unfolding end_phase
result c = received c.waiting c

-- The deadline of the running phase.
unfoldable pub deadline : Closer → Closer
unfolding end_phase
deadline c = end_phase c.stage c

pub data Event : Type 0 where
  adds_close adds_drain : List ℕ → Event
  shuts_down returns expires : Event

unfoldable pub step : Event → Closer → Closer
unfolding add_close add_drain shut_down result deadline
step (adds_close fs) c = add_close fs c
step (adds_drain fs) c = add_drain fs c
step shuts_down c = shut_down c
step returns c = result c
step expires c = deadline c

unfoldable pub steps : List Event → Closer → Closer
unfolding step
steps [] c = c
steps (e ∷ es) c = steps es (step e c)
