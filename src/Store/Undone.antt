-- ===== src/Store/Undone.antt =====
-- Calls that leave the tables as they were.
use task_tracker.Base.{◌≡◌, ◌≢◌, refl, sym, ap, ◌∙◌, ◌⊎◌, inl, inr}
use task_tracker.Tx.{Outcome, ok, err, panicked, ◌>>=◌, continue, do_tx_then-cases, do_tx-cases}
use task_tracker.Domain.{Error}
use task_tracker.Store.{Db, World, Transactions}

-- The call leaves what `g` reads as it was.
abbrev pub Keeps : {X A : Type 0} → (World → X) → Db A → Type 0
Keeps g m = (w : World) → g (m w).1 ≡ g w

pub then-Keeps :
    {X A B : Type 0} (g : World → X) (m : Db A) (k : A → Db B)
    → Keeps g m
    → ((a : A) → Keeps g (k a))
    → Keeps g (m >>= k)
then-Keeps {X} {A} g m k first rest w = go (m w).0
  where
    go : (r : Outcome Error A) → g (continue r k (m w).1).1 ≡ g w
    go (ok a) = rest a (m w).1 ∙ first w
    go (err e) = first w
    go panicked = first w

-- The call returns no value, and the tables are those of `w`.
abbrev pub Undone : {A : Type 0} → World → Outcome Error A × World → Type 0
Undone {A} w r = (r.1.tables ≡ w.tables) × ((a : A) → r.0 ≢ ok a)

-- From a later state with the same tables.
pub Undone-from :
    {A : Type 0} (w w' : World) (r r' : Outcome Error A × World)
    → r ≡ r'
    → w'.tables ≡ w.tables
    → Undone w' r'
    → Undone w r
Undone-from w w' r r' e same (kept, failed) =
    (ap (λ p. p.1.tables) e ∙ kept ∙ same, λ a h. failed a (ap (λ p. p.0) (sym e) ∙ h))

-- The call `m >>= k` returned from `m` and went on, or it is undone.
abbrev pub Goes : {A B : Type 0} → Db A → Db B → (A → Db B) → World → Type 0
Goes {A} m whole k w = ((a : A) × ((m w).0 ≡ ok a) × (whole w ≡ k a (m w).1)) ⊎ Undone w (whole w)

-- A first call that only reads.
pub read_then-Goes :
    {A B : Type 0} (m : Db A) (k : A → Db B) (w : World)
    → (m w).1.tables ≡ w.tables
    → Goes m (m >>= k) k w
read_then-Goes {A} {B} m k w same = go (m w).0 refl
  where
    go :
        (r : Outcome Error A)
        → (m w).0 ≡ r
        → ((a : A) × ((m w).0 ≡ ok a) × (continue r k (m w).1 ≡ k a (m w).1))
          ⊎ Undone w (continue r k (m w).1)
    go (ok a) e = inl (a, e, refl)
    go (err x) e = inr (same, λ b h. cc)
    go panicked e = inr (same, λ b h. cc)

module _ (tx : Transactions) where
  open tx use {do_tx}

  pub tx_then-Goes :
      {A B : Type 0} (m : Db A) (k : A → Db B) (w : World) → Goes m (do_tx m >>= k) k w
  tx_then-Goes m k w = elim (do_tx_then-cases tx m k w) [
    | inl done ↦ inl done
    | inr (undone, failed) ↦ inr (ap (λ v. v.tables) undone, failed)
  ]

  pub tx-Goes :
      {A : Type 0} (m : Db A) (w : World)
      → ((a : A) × ((m w).0 ≡ ok a) × (do_tx m w ≡ m w)) ⊎ Undone w (do_tx m w)
  tx-Goes m w = elim (do_tx-cases tx m w) [
    | inl done ↦ inl done
    | inr (undone, failed) ↦ inr (ap (λ v. v.tables) undone, failed)
  ]
