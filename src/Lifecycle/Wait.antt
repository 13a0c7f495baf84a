-- ===== src/Lifecycle/Wait.antt =====
-- What `ShutDown` of internal/infrastructure/lifecycle/closer.go waits for before its second phase.
use task_tracker.Base.{
  ℕ, zero, suc, ◌<◌, ◌≡◌, refl, true, false, List, [], ◌∷◌, length, arith, if◌then◌else◌, sym, ap,
  subst,
}
use task_tracker.Lifecycle.{
  drain, Stage, idle, draining, releasing, finished, Closer, tagged, add_close, add_drain, received,
  run_drain, shut_down, result, Event, adds_close, adds_drain, shuts_down, returns, expires, step,
  steps,
}
use task_tracker.Lifecycle.Order.{At, shut_down-IsUnderway, steps-IsUnderway}
use task_tracker.Lifecycle.Finish.{ends}

-- No deadline is among the events.
abbrev pub InTime : List Event → Type 0
InTime [] = Unit {0}
InTime (expires ∷ es) = ⊥
InTime (returns ∷ es) = InTime es
InTime (adds_close _ ∷ es) = InTime es
InTime (adds_drain _ ∷ es) = InTime es
InTime (shuts_down ∷ es) = InTime es

received_more :
    (n : ℕ) (c : Closer)
    → 1 < n
    → c.once ≡ true
    → c.stage ≡ draining
    → ((received n c).once ≡ true)
      × ((received n c).stage ≡ draining)
      × (suc (received n c).waiting ≡ n)
received_more zero c more o e = absurd (omega arith)
received_more (suc zero) c more o e = absurd (omega arith)
received_more (suc (suc n)) c more o e = (o, e, refl)

still_draining :
    (es : List Event) (c : Closer)
    → c.once ≡ true
    → c.stage ≡ draining
    → InTime es
    → ends es < c.waiting
    → (steps es c).stage ≡ draining
unfolding steps step result add_close add_drain shut_down
still_draining [] c o e in_time fewer = e
still_draining (expires ∷ es) c o e in_time fewer = absurd in_time
still_draining (adds_close fs ∷ es) c o e in_time fewer =
    still_draining es (step (adds_close fs) c) o e in_time fewer
still_draining (adds_drain fs ∷ es) c o e in_time fewer =
    still_draining es (step (adds_drain fs) c) o e in_time fewer
still_draining (shuts_down ∷ es) c o e in_time fewer =
    let same : step shuts_down c ≡ c =
      ap
        (λ b.
          if b
          then c
          else run_drain c.drain (record c { once = true; drain = []; close = []; held = c.close }))
        o in
    subst (λ d. (steps es d).stage ≡ draining) (sym same) (still_draining es c o e in_time fewer)
still_draining (returns ∷ es) c o e in_time fewer =
    let (o', e', one_less) = received_more c.waiting c (omega arith) o e in
    still_draining es (received c.waiting c) o' e' in_time (omega arith)

run_drain_waits :
    (dr : List ℕ) (c : Closer)
    → 0 < length dr
    → c.once ≡ true
    → ((run_drain dr c).once ≡ true)
      × ((run_drain dr c).stage ≡ draining)
      × ((run_drain dr c).waiting ≡ length dr)
unfolding run_drain
run_drain_waits [] c some_function o = absurd (omega arith)
run_drain_waits (f ∷ fs) c some_function o = (o, refl, refl)

first_waits :
    (c : Closer)
    → 0 < length c.drain
    → c.once ≡ false
    → ((shut_down c).once ≡ true)
      × ((shut_down c).stage ≡ draining)
      × ((shut_down c).waiting ≡ length c.drain)
unfolding shut_down
first_waits c some_function o =
    let taken = record c { once = true; drain = []; close = []; held = c.close } in
    subst
      (λ b.
        let d = if b then c else run_drain c.drain taken in
        (d.once ≡ true) × (d.stage ≡ draining) × (d.waiting ≡ length c.drain))
      (sym o) (run_drain_waits c.drain taken some_function refl)

drained_only :
    (dr cl : List ℕ) (st : Stage) (c : Closer)
    → st ≡ draining
    → At dr cl st c
    → c.started ≡ tagged drain dr
drained_only dr cl draining c e at = at.0
drained_only dr cl idle c e at = absurd at
drained_only dr cl releasing c e at = cc
drained_only dr cl finished c e at = cc

-- Take a closer that has not been shut down and has started nothing. After a shutdown, as long as
-- no deadline has passed and fewer results are in than there are functions to drain, exactly the
-- functions to drain have been started and none to release.
pub shut_down-waits :
    (c : Closer) (es : List Event)
    → c.once ≡ false
    → c.started ≡ []
    → InTime es
    → ends es < length c.drain
    → (steps es (shut_down c)).started ≡ tagged drain c.drain
shut_down-waits c es o e in_time fewer =
    let (o', e', waits) = first_waits c (omega arith) o in
    let u = steps-IsUnderway c.drain c.close es (shut_down c) (shut_down-IsUnderway c o e) in
    let c' = steps es (shut_down c) in
    drained_only c.drain c.close c'.stage c'
      (still_draining es (shut_down c) o' e' in_time (omega arith)) u.at
