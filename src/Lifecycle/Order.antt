-- ===== src/Lifecycle/Order.antt =====
-- The order in which `ShutDown` of internal/infrastructure/lifecycle/closer.go starts what is registered.
use task_tracker.Base.{
  ℕ, zero, suc, ◌≤◌, ◌≡◌, refl, true, false, List, [], ◌∷◌, ◌++◌, arith, append-nil, if◌then◌else◌,
  sym, ap, subst, ◌∙◌,
}
use task_tracker.Lifecycle.{
  drain, release, Stage, idle, draining, releasing, finished, Closer, tagged, add_close, add_drain,
  received, run_release, run_drain, shut_down, end_phase, result, deadline, Event, adds_close,
  adds_drain, shuts_down, returns, expires, step, steps,
}

-- Where a shutdown of `dr` and `cl` stands.
abbrev pub At : List ℕ → List ℕ → Stage → Closer → Type 0
At dr cl idle c = ⊥
At dr cl draining c = (c.started ≡ tagged drain dr) × (c.held ≡ cl)
At dr cl releasing c = c.started ≡ tagged drain dr ++ tagged release cl
At dr cl finished c = c.started ≡ tagged drain dr ++ tagged release cl

-- A phase that runs waits for a result.
abbrev pub Waits : Stage → ℕ → Type 0
Waits idle n = Unit {0}
Waits draining n = 1 ≤ n
Waits releasing n = 1 ≤ n
Waits finished n = Unit {0}

pub record IsUnderway (dr cl : List ℕ) (c : Closer) : Type 0 where
  pub once : c.once ≡ true
  pub at : At dr cl c.stage c
  pub waits : Waits c.stage c.waiting

At-same :
    (dr cl : List ℕ) (st : Stage) (c c' : Closer)
    → c.started ≡ c'.started
    → c.held ≡ c'.held
    → At dr cl st c
    → At dr cl st c'
At-same dr cl idle c c' e f at = at
At-same dr cl draining c c' e f (started, held) = (sym e ∙ started, sym f ∙ held)
At-same dr cl releasing c c' e f started = sym e ∙ started
At-same dr cl finished c c' e f started = sym e ∙ started

-- What the second phase leaves.
run_release-IsUnderway :
    (dr cl : List ℕ) (c : Closer)
    → c.once ≡ true
    → c.started ≡ tagged drain dr
    → IsUnderway dr cl (run_release cl c)
unfolding run_release
run_release-IsUnderway dr [] c o e = record {
  once = o;
  at = e ∙ sym (append-nil (tagged drain dr));
  waits = tt;
}
run_release-IsUnderway dr (f ∷ fs) c o e = record {
  once = o;
  at = ap (λ s. s ++ tagged release (f ∷ fs)) e;
  waits = omega arith;
}

end_phase-IsUnderway :
    (dr cl : List ℕ) (st : Stage) (c : Closer)
    → c.stage ≡ st
    → c.once ≡ true
    → At dr cl st c
    → IsUnderway dr cl (end_phase st c)
unfolding end_phase
end_phase-IsUnderway dr cl idle c e o at = absurd at
end_phase-IsUnderway dr cl draining c e o (started, held) =
    subst (λ fs. IsUnderway dr cl (run_release fs c)) (sym held)
      (run_release-IsUnderway dr cl c o started)
end_phase-IsUnderway dr cl releasing c e o started = record { once = o; at = started; waits = tt }
end_phase-IsUnderway dr cl finished c e o started = record {
  once = o;
  at = subst (λ st. At dr cl st c) (sym e) started;
  waits = subst (λ st. Waits st c.waiting) (sym e) tt;
}

fewer-Waits : (st : Stage) (n : ℕ) → Waits st (suc n)
fewer-Waits idle n = tt
fewer-Waits draining n = omega arith
fewer-Waits releasing n = omega arith
fewer-Waits finished n = tt

received-IsUnderway :
    (dr cl : List ℕ) (n : ℕ) (c : Closer) → IsUnderway dr cl c → IsUnderway dr cl (received n c)
received-IsUnderway dr cl zero c u = u
received-IsUnderway dr cl (suc zero) c u =
    end_phase-IsUnderway dr cl c.stage (record c { waiting = 0 }) refl u.once
      (At-same dr cl c.stage c (record c { waiting = 0 }) refl refl u.at)
received-IsUnderway dr cl (suc (suc n)) c u = record {
  once = u.once;
  at = At-same dr cl c.stage c (record c { waiting = suc n }) refl refl u.at;
  waits = fewer-Waits c.stage n;
}

pub step-IsUnderway :
    (dr cl : List ℕ) (e : Event) (c : Closer) → IsUnderway dr cl c → IsUnderway dr cl (step e c)
unfolding step result deadline add_close add_drain shut_down
step-IsUnderway dr cl (adds_close fs) c u = record {
  once = u.once;
  at = At-same dr cl c.stage c (record c { close = c.close ++ fs }) refl refl u.at;
  waits = u.waits;
}
step-IsUnderway dr cl (adds_drain fs) c u = record {
  once = u.once;
  at = At-same dr cl c.stage c (record c { drain = c.drain ++ fs }) refl refl u.at;
  waits = u.waits;
}
step-IsUnderway dr cl shuts_down c u =
    subst
      (λ b. IsUnderway dr cl (
        if b
        then c
        else run_drain c.drain (record c { once = true; drain = []; close = []; held = c.close })))
      (sym u.once) u
step-IsUnderway dr cl returns c u = received-IsUnderway dr cl c.waiting c u
step-IsUnderway dr cl expires c u = end_phase-IsUnderway dr cl c.stage c refl u.once u.at

run_drain-IsUnderway :
    (dr : List ℕ) (c : Closer)
    → c.once ≡ true
    → c.started ≡ []
    → IsUnderway dr c.held (run_drain dr c)
unfolding run_drain
run_drain-IsUnderway [] c o e = run_release-IsUnderway [] c.held c o e
run_drain-IsUnderway (f ∷ fs) c o e = record {
  once = o;
  at = (ap (λ s. s ++ tagged drain (f ∷ fs)) e, refl);
  waits = omega arith;
}

-- The first shutdown takes what is registered.
pub shut_down-IsUnderway :
    (c : Closer) → c.once ≡ false → c.started ≡ [] → IsUnderway c.drain c.close (shut_down c)
unfolding shut_down
shut_down-IsUnderway c o e =
    subst
      (λ b. IsUnderway c.drain c.close (
        if b
        then c
        else run_drain c.drain (record c { once = true; drain = []; close = []; held = c.close })))
      (sym o)
      (run_drain-IsUnderway c.drain
        (record c { once = true; drain = []; close = []; held = c.close }) refl e)

pub steps-IsUnderway :
    (dr cl : List ℕ) (es : List Event) (c : Closer)
    → IsUnderway dr cl c
    → IsUnderway dr cl (steps es c)
unfolding steps
steps-IsUnderway dr cl [] c u = u
steps-IsUnderway dr cl (e ∷ es) c u =
    steps-IsUnderway dr cl es (step e c) (step-IsUnderway dr cl e c u)
