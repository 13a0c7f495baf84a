-- ===== src/Tx.antt =====
-- Go calls that change a state, and the transaction manager (the interface `TxManager` of
-- internal/service/teams.go and internal/infrastructure/outbox/relay.go). The manager itself is a
-- third-party package, so it is a record of its operation and the behaviour that it documents.
use task_tracker.Base.{◌≡◌, ◌≢◌, refl, ap, ◌∙◌, ◌⊎◌, inl, inr}

-- How a call ends. What it wrote before an error or a panic stays written.
pub data Outcome (E A : Type 0) : Type 0 where
  ok : A → Outcome E A
  err : E → Outcome E A
  panicked : Outcome E A

abbrev pub Action : Type 0 → Type 0 → Type 0 → Type 0
Action S E A = S → Outcome E A × S

module _ {S E : Type 0} where
  abbrev pub continue : {A B : Type 0} → Outcome E A → (A → Action S E B) → Action S E B
  continue (ok a) f s = f a s
  continue (err e) f s = (err e, s)
  continue panicked f s = (panicked, s)

  infixl 5 ◌>>=◌ ◌>>◌
  abbrev pub ◌>>=◌ : {A B : Type 0} → Action S E A → (A → Action S E B) → Action S E B
  ◌>>=◌ m f s = let (r, s') = m s in continue r f s'

  abbrev pub ◌>>◌ : {A B : Type 0} → Action S E A → Action S E B → Action S E B
  m >> k = m >>= λ _. k

  abbrev pub pure : {A : Type 0} → A → Action S E A
  pure a s = (ok a, s)

  abbrev pub raise : {A : Type 0} → E → Action S E A
  raise e s = (err e, s)

  -- A chain that has returned nil: its first call has, and the rest, which went on from there.
  pub bind-ok :
      {A B : Type 0} (m : Action S E A) (f : A → Action S E B) (s : S) (b : B)
      → ((m >>= f) s).0 ≡ ok b
      → (a : A) × ((m s).0 ≡ ok a) × ((f a (m s).1).0 ≡ ok b) × ((m >>= f) s ≡ f a (m s).1)
  bind-ok {A} m f s b h = go (m s).0 h
    where
      go :
          (r : Outcome E A)
          → (continue r f (m s).1).0 ≡ ok b
          → (a : A) × (r ≡ ok a) × ((f a (m s).1).0 ≡ ok b) × (continue r f (m s).1 ≡ f a (m s).1)
      go (ok a) e = (a, refl, e, refl)
      go (err x) e = cc
      go panicked e = cc

-- `restore s s'` is the state after a rollback to `s` of a body that ended in `s'`: what a transaction
-- does not cover (an auto-increment counter, a captured variable) is taken from `s'`.
pub record TxManager (S E : Type 0) (restore : S → S → S) : Type 1 where
  pub do_tx : {A : Type 0} → Action S E A → Action S E A
  -- The body has returned nil: its writes are there, or the commit failed and none is.
  pub on_ok :
      {A : Type 0} (m : Action S E A) (s s' : S) (a : A)
      → m s ≡ (ok a, s')
      → (do_tx m s ≡ (ok a, s')) ⊎ ((e : E) × (do_tx m s ≡ (err e, restore s s')))
  -- The body has failed: the same error comes back, and its writes are undone.
  pub on_err :
      {A : Type 0} (m : Action S E A) (s s' : S) (e : E)
      → m s ≡ (err e, s')
      → do_tx m s ≡ (err e, restore s s')
  pub on_panic :
      {A : Type 0} (m : Action S E A) (s s' : S)
      → m s ≡ (panicked, s')
      → do_tx m s ≡ (panicked, restore s s')

module _ {S E : Type 0} {restore : S → S → S} (tx : TxManager S E restore) where
  open tx use {do_tx, on_ok, on_err, on_panic}

  -- A transaction is its body, or its body undone.
  abbrev Ends : {A : Type 0} → Action S E A → S → Outcome E A × S → Outcome E A × S → Type 0
  Ends {A} m s body done =
      ((a : A) × (body.0 ≡ ok a) × (done ≡ body))
      ⊎ ((done.1 ≡ restore s body.1) × ((a : A) → done.0 ≢ ok a))

  ends :
      {A : Type 0} (m : Action S E A) (s s' : S) (r : Outcome E A)
      → m s ≡ (r, s')
      → Ends m s (r, s') (do_tx m s)
  ends m s s' (ok a) h = elim (on_ok m s s' a h) [
    | inl done ↦ inl (a, refl, done)
    | inr (e, undone) ↦ inr (ap (λ p. p.1) undone, λ b p. cc)
  ]
  ends m s s' (err e) h = let undone = on_err m s s' e h in inr (ap (λ p. p.1) undone, λ b p. cc)
  ends m s s' panicked h = let undone = on_panic m s s' h in inr (ap (λ p. p.1) undone, λ b p. cc)

  pub do_tx-cases :
      {A : Type 0} (m : Action S E A) (s : S)
      → ((a : A) × ((m s).0 ≡ ok a) × (do_tx m s ≡ m s))
        ⊎ (((do_tx m s).1 ≡ restore s (m s).1) × ((a : A) → (do_tx m s).0 ≢ ok a))
  do_tx-cases m s = ends m s (m s).1 (m s).0 refl

  -- What follows a transaction runs when it has committed, and only then.
  pub do_tx_then-cases :
      {A B : Type 0} (m : Action S E A) (k : A → Action S E B) (s : S)
      → ((a : A) × ((m s).0 ≡ ok a) × ((do_tx m >>= k) s ≡ k a (m s).1))
        ⊎ (((do_tx m >>= k) s).1 ≡ restore s (m s).1) × ((b : B) → ((do_tx m >>= k) s).0 ≢ ok b)
  do_tx_then-cases {A} {B} m k s = elim (do_tx-cases m s) [
    | inl (a, done, same) ↦
        inl (a, done, ap (λ p. continue p.0 k p.1) same ∙ ap (λ r. continue r k (m s).1) done)
    | inr (undone, failed) ↦
        let (kept, refused) = skipped (do_tx m s).0 (do_tx m s).1 failed in
        inr (kept ∙ undone, refused)
  ]
    where
      skipped :
          (r : Outcome E A) (s' : S)
          → ((a : A) → r ≢ ok a)
          → ((continue r k s').1 ≡ s') × ((b : B) → (continue r k s').0 ≢ ok b)
      skipped (ok a) s' none_ok = absurd (none_ok a refl)
      skipped (err e) s' none_ok = (refl, λ b h. cc)
      skipped panicked s' none_ok = (refl, λ b h. cc)
