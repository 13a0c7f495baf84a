-- ===== src/Outbox/Run/Safety.antt =====
-- No message is lost while the relay runs.
use task_tracker.Base.{
  ℕ, ◌≡◌, refl, subst, true, false, List, [], ◌∷◌, map, In, In-append_left, contains, contains→In,
  Bool-cases, ◌⊎◌, inl, inr, Text, arith, ==_iff, In-map,
}
use task_tracker.Tx.{TxManager}
use task_tracker.Outbox.{Config, Message}
use task_tracker.Outbox.Table.{Row, claim, enqueue}
use task_tracker.Outbox.Table.Rows.{row_ids}
use task_tracker.Outbox.Tick.{Body, restore, Relay, tick}
use task_tracker.Outbox.Tick.Safety.{Sent, tick-Sent}
use task_tracker.Outbox.Run.{Signal, done, ticked, enqueued, run}

In→contains : (a : ℕ) (xs : List ℕ) → In a xs → contains xs a ≡ true
In→contains a [] m = absurd m
In→contains a (x ∷ xs) (inl e) = rw ((==_iff x a).1 e) refl
In→contains a (x ∷ xs) (inr m) = let later = In→contains a xs m in ground arith

map-In :
    {A B : Type 0} (f : A → B) (b : B) (xs : List A)
    → In b (map f xs)
    → (a : A) × In a xs × (f a ≡ b)
map-In f b [] m = absurd m
map-In f b (x ∷ xs) (inl e) = (x, inl refl, e)
map-In f b (x ∷ xs) (inr m) = let (a, at, e) = map-In f b xs m in (a, inr at, e)

absent : (a : ℕ) (xs : List ℕ) → contains xs a ≡ false → ¬ In a xs
absent a xs e m = let there = In→contains a xs m in cc

enqueue-keeps :
    (now n : ℕ) (msg : Message) (rows : List Row) (id : ℕ)
    → In id (row_ids rows)
    → In id (row_ids (enqueue now n msg rows))
unfolding enqueue
enqueue-keeps now n msg rows id m =
    let (row, at, named) = map-In (λ (x : Row). x.id) id rows m in
    subst (λ k. In k (row_ids (enqueue now n msg rows))) named
      (In-map (λ (x : Row). x.id) row (enqueue now n msg rows) (In-append_left row rows _ at))

module _ (tx : TxManager Body Text restore) (cfg : Config) where
  -- One of the ticks had claimed the message, which was known to be sent or accepted.
  abbrev pub SentBy : List Signal → ℕ → Relay → Type 0
  SentBy [] id r = ⊥
  SentBy (done ∷ signals) id r = ⊥
  SentBy (ticked true env ∷ signals) id r = ⊥
  SentBy (ticked false env ∷ signals) id r =
      Sent env.observed (claim env.session cfg.batch r.rows) id
      ⊎ SentBy signals id (tick tx env cfg r)
  SentBy (enqueued now n msg ∷ signals) id r =
      SentBy signals id (record r { rows = enqueue now n msg r.rows })

  -- If an identifier stands in the outbox when the relay begins to run and does not when the run
  -- has ended, or at any moment before its end, then one of its ticks had claimed, from the rows as
  -- they were then, a message with that identifier which the dedup store knew to be sent, or for
  -- which the provider returned a nil error in an answer with one verdict for each message. Nothing
  -- is assumed of what the workers meet, panics, pauses and failed calls included, nor of the
  -- faults of the database, and messages may be enqueued between the ticks.
  pub run-SentBy :
      (signals : List Signal) (r : Relay) (id : ℕ)
      → In id (row_ids r.rows)
      → ¬ In id (row_ids (run tx cfg signals r).relay.rows)
      → SentBy signals id r
  unfolding run
  run-SentBy [] r id m gone = gone m
  run-SentBy (done ∷ signals) r id m gone = gone m
  run-SentBy (ticked true env ∷ signals) r id m gone = gone m
  run-SentBy (enqueued now n msg ∷ signals) r id m gone =
      run-SentBy signals (record r { rows = enqueue now n msg r.rows }) id
        (enqueue-keeps now n msg r.rows id m) gone
  run-SentBy (ticked false env ∷ signals) r id m gone =
      let after = row_ids (tick tx env cfg r).rows in
      elim (Bool-cases (contains after id)) [
        | inl still ↦
            inr (run-SentBy signals (tick tx env cfg r) id (contains→In id after still) gone)
        | inr left ↦
            let (row, at, named) = map-In (λ (x : Row). x.id) id r.rows m in
            inl (
              subst (Sent env.observed (claim env.session cfg.batch r.rows)) named (
                tick-Sent tx env cfg r row at
                  (λ there. absent id after left (subst (λ k. In k after) named there))))
      ]
