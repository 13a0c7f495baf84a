-- ===== src/Lifecycle/Finish.antt =====
-- How `ShutDown` of internal/infrastructure/lifecycle/closer.go ends.
use task_tracker.Base.{
  ℕ, zero, suc, ◌+◌, ◌-◌, ◌≤◌, ◌≡◌, refl, true, false, List, [], ◌∷◌, ◌++◌, length, arith,
  if◌then◌else◌, sym, ap, subst,
}
use task_tracker.Lifecycle.{
  drain, release, Stage, idle, draining, releasing, finished, Closer, tagged, add_close, add_drain,
  received, run_release, run_drain, shut_down, end_phase, result, deadline, Event, adds_close,
  adds_drain, shuts_down, returns, expires, step, steps,
}
use task_tracker.Lifecycle.Order.{
  At, Waits, IsUnderway, step-IsUnderway, shut_down-IsUnderway, steps-IsUnderway,
}

-- How many results or deadlines the events bring.
abbrev pub ends : List Event → ℕ
ends [] = 0
ends (returns ∷ es) = suc (ends es)
ends (expires ∷ es) = suc (ends es)
ends (adds_close _ ∷ es) = ends es
ends (adds_drain _ ∷ es) = ends es
ends (shuts_down ∷ es) = ends es

-- The results and deadlines that are still to come, at most.
abbrev outstanding : Stage → Closer → ℕ
outstanding idle c = 0
outstanding draining c = c.waiting + length c.held
outstanding releasing c = c.waiting
outstanding finished c = 0

run_release-outstanding :
    (cl : List ℕ) (c : Closer) → outstanding (run_release cl c).stage (run_release cl c) ≤ length cl
unfolding run_release
run_release-outstanding [] c = omega arith
run_release-outstanding (f ∷ fs) c = omega arith

end_phase-outstanding :
    (st : Stage) (c : Closer) (n : ℕ)
    → c.stage ≡ st
    → 1 ≤ n
    → outstanding (end_phase st c).stage (end_phase st c)
      ≤ outstanding st (record c { waiting = n }) - 1
unfolding end_phase
end_phase-outstanding idle c n e one = rw e (omega arith)
end_phase-outstanding draining c n e one = omega (arith, run_release-outstanding c.held c)
end_phase-outstanding releasing c n e one = omega arith
end_phase-outstanding finished c n e one = rw e (omega arith)

outstanding-waiting :
    (st : Stage) (c : Closer) (n : ℕ)
    → c.waiting ≡ n
    → outstanding st c ≡ outstanding st (record c { waiting = n })
outstanding-waiting idle c n e = refl
outstanding-waiting draining c n e = ap (λ k. k + length c.held) e
outstanding-waiting releasing c n e = e
outstanding-waiting finished c n e = refl

nothing-Waits :
    (st : Stage) (c : Closer) → c.waiting ≡ 0 → Waits st c.waiting → outstanding st c ≡ 0
nothing-Waits idle c e w = refl
nothing-Waits draining c e w = absurd (omega arith)
nothing-Waits releasing c e w = absurd (omega arith)
nothing-Waits finished c e w = refl

fewer-outstanding :
    (st : Stage) (c : Closer) (n : ℕ)
    → outstanding st (record c { waiting = suc n })
      ≤ outstanding st (record c { waiting = suc (suc n) }) - 1
fewer-outstanding idle c n = omega arith
fewer-outstanding draining c n = omega arith
fewer-outstanding releasing c n = omega arith
fewer-outstanding finished c n = omega arith

received-outstanding :
    (n : ℕ) (c : Closer)
    → c.waiting ≡ n
    → Waits c.stage c.waiting
    → outstanding (received n c).stage (received n c) ≤ outstanding c.stage c - 1
received-outstanding zero c e w = omega (arith, nothing-Waits c.stage c e w)
received-outstanding (suc zero) c e w = omega (
  arith,
  outstanding-waiting c.stage c 1 e,
  end_phase-outstanding c.stage (record c { waiting = 0 }) 1 refl (omega arith),
)
received-outstanding (suc (suc n)) c e w =
    omega (arith, outstanding-waiting c.stage c (suc (suc n)) e, fewer-outstanding c.stage c n)

quiet :
    (st : Stage) (c : Closer)
    → c.stage ≡ st
    → Waits st 0
    → outstanding (end_phase st c).stage (end_phase st c) ≡ 0
unfolding end_phase
quiet idle c e w = rw e refl
quiet draining c e w = absurd (omega arith)
quiet releasing c e w = absurd (omega arith)
quiet finished c e w = rw e refl

expired-outstanding :
    (c : Closer) (n : ℕ)
    → c.waiting ≡ n
    → Waits c.stage n
    → outstanding (end_phase c.stage c).stage (end_phase c.stage c) ≤ outstanding c.stage c - 1
expired-outstanding c zero e w = omega (arith, quiet c.stage c refl w)
expired-outstanding c (suc n) e w = omega (
  arith,
  outstanding-waiting c.stage c (suc n) e,
  end_phase-outstanding c.stage c (suc n) refl (omega arith),
)

-- Any other event leaves it.
outstanding-same :
    (st : Stage) (c c' : Closer)
    → c.held ≡ c'.held
    → c.waiting ≡ c'.waiting
    → outstanding st c ≡ outstanding st c'
outstanding-same idle c c' e f = refl
outstanding-same draining c c' e f = omega (arith, ap length e)
outstanding-same releasing c c' e f = f
outstanding-same finished c c' e f = refl

-- Each result and each deadline takes one away, until none is left.
steps-outstanding :
    (dr cl : List ℕ) (es : List Event) (c : Closer)
    → IsUnderway dr cl c
    → outstanding (steps es c).stage (steps es c) ≤ outstanding c.stage c - ends es
unfolding steps step result deadline add_close add_drain shut_down
steps-outstanding dr cl [] c u = omega arith
steps-outstanding dr cl (returns ∷ es) c u = omega (
  arith,
  received-outstanding c.waiting c refl u.waits,
  steps-outstanding dr cl es (step returns c) (step-IsUnderway dr cl returns c u),
)
steps-outstanding dr cl (expires ∷ es) c u = omega (
  arith,
  expired-outstanding c c.waiting refl u.waits,
  steps-outstanding dr cl es (step expires c) (step-IsUnderway dr cl expires c u),
)
steps-outstanding dr cl (adds_close fs ∷ es) c u = omega (
  arith,
  outstanding-same c.stage c (record c { close = c.close ++ fs }) refl refl,
  steps-outstanding dr cl es (step (adds_close fs) c) (step-IsUnderway dr cl (adds_close fs) c u),
)
steps-outstanding dr cl (adds_drain fs ∷ es) c u = omega (
  arith,
  outstanding-same c.stage c (record c { drain = c.drain ++ fs }) refl refl,
  steps-outstanding dr cl es (step (adds_drain fs) c) (step-IsUnderway dr cl (adds_drain fs) c u),
)
steps-outstanding dr cl (shuts_down ∷ es) c u =
    let same : step shuts_down c ≡ c =
      ap
        (λ b.
          if b
          then c
          else run_drain c.drain (record c { once = true; drain = []; close = []; held = c.close }))
        u.once in
    subst (λ d. outstanding (steps es d).stage (steps es d) ≤ outstanding c.stage c - ends es)
      (sym same) (steps-outstanding dr cl es c u)

run_drain-outstanding :
    (dr : List ℕ) (c : Closer)
    → outstanding (run_drain dr c).stage (run_drain dr c) ≤ length dr + length c.held
unfolding run_drain
run_drain-outstanding [] c = omega (arith, run_release-outstanding c.held c)
run_drain-outstanding (f ∷ fs) c = omega arith

nothing_left :
    (dr cl : List ℕ) (st : Stage) (c : Closer)
    → At dr cl st c
    → Waits st c.waiting
    → outstanding st c ≡ 0
    → (st ≡ finished) × (c.started ≡ tagged drain dr ++ tagged release cl)
nothing_left dr cl idle c at w none = absurd at
nothing_left dr cl draining c at w none = absurd (omega arith)
nothing_left dr cl releasing c at w none = absurd (omega arith)
nothing_left dr cl finished c at w none = (refl, at)

first_outstanding :
    (c : Closer)
    → c.once ≡ false
    → outstanding (shut_down c).stage (shut_down c) ≤ length c.drain + length c.close
unfolding shut_down
first_outstanding c o =
    let taken = record c { once = true; drain = []; close = []; held = c.close } in
    subst
      (λ b.
        outstanding (if b then c else run_drain c.drain taken).stage
          (if b then c else run_drain c.drain taken)
        ≤ length c.drain + length c.close)
      (sym o) (run_drain-outstanding c.drain taken)

-- Take a closer that has not been shut down and has started nothing. Whatever else happens, a
-- shutdown ends after at most as many results and deadlines as there are registered functions; by
-- then it has started each function to drain and then each function to release once, and nothing
-- else.
pub shut_down-finishes :
    (c : Closer) (es : List Event)
    → c.once ≡ false
    → c.started ≡ []
    → length c.drain + length c.close ≤ ends es
    → ((steps es (shut_down c)).stage ≡ finished)
      × ((steps es (shut_down c)).started ≡ tagged drain c.drain ++ tagged release c.close)
shut_down-finishes c es o e enough =
    let u = shut_down-IsUnderway c o e in
    let u' = steps-IsUnderway c.drain c.close es (shut_down c) u in
    let c' = steps es (shut_down c) in
    nothing_left c.drain c.close c'.stage c' u'.at u'.waits
      (omega (arith, steps-outstanding c.drain c.close es (shut_down c) u, first_outstanding c o))
