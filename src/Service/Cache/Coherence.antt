-- ===== src/Service/Cache/Coherence.antt =====
-- What the cache of internal/infrastructure/cache/tasks.go holds for a team, against the tables.
use task_tracker.Base.{
  ℕ, suc, ◌≤◌, ◌≡◌, ◌≢◌, sym, ap, subst, ◌∙◌, false, some, List, Bool-cases, inl, inr, arith, ◌==◌,
  ==_refl, if◌then◌else◌,
}
use task_tracker.Domain.{Task, TaskFilter}
use task_tracker.Store.{Env, World, counted}
use task_tracker.Persistence.Tasks.{select}
use task_tracker.Service.Cache.{list_key, same_key, or_zero, set_list, invalidate_team}
use task_tracker.Service.Cache.Keys.{IsRequest, same_key_sound, list_key-injective}

abbrev pub version : ℕ → World → ℕ
version team_id w = or_zero (w.redis.versions team_id)

-- No list of the team stands under a version still to come, and those of the present one are what the
-- database would answer.
abbrev pub Coherent : ℕ → World → Type 0
Coherent team_id w =
    (f : TaskFilter) (v : ℕ) (tasks : List Task)
    → f.team_id ≡ team_id
    → IsRequest f
    → version team_id w ≤ v
    → w.redis.lists (list_key f v) ≡ some tasks
    → (v ≡ version team_id w) × (tasks ≡ select f w.tables)

-- The world in which redis has stored the answer of the database under the present version.
abbrev stored_list : TaskFilter → World → World
stored_list f w = record (counted w) {
  redis = record w.redis {
    lists = λ k.
        if same_key k (list_key f (version f.team_id w))
        then some (select f w.tables)
        else w.redis.lists k;
  };
}

stored_list-Coherent :
    (f : TaskFilter) (w : World)
    → IsRequest f
    → Coherent f.team_id w
    → Coherent f.team_id (stored_list f w)
stored_list-Coherent f w rf coherent g v tasks of_team rg ahead stored =
    elim (Bool-cases (same_key (list_key g v) (list_key f (version f.team_id w)))) [
      | inl same ↦
          let (g_f, v_now) =
            list_key-injective g f v (version f.team_id w) rg rf (same_key_sound _ _ same) in
          let answer : some (select f w.tables) ≡ some tasks = rw same at stored in (v_now, cc)
      | inr other ↦ coherent g v tasks of_team rg ahead (rw other at stored)
    ]

abbrev raised : ℕ → World → World
raised team_id w = record (counted w) {
  redis = record w.redis {
    versions =
        λ t. if t == team_id then some (suc (or_zero (w.redis.versions t))) else w.redis.versions t;
  };
}

module _ (env : Env) where
  pub set_list-reads :
      (f : TaskFilter) (v : ℕ) (tasks : List Task) (w : World)
      → (set_list env f v tasks w).tables ≡ w.tables
  unfolding set_list
  set_list-reads f v tasks w = ground arith

  pub set_list-Coherent :
      (f : TaskFilter) (w : World)
      → IsRequest f
      → Coherent f.team_id w
      → Coherent f.team_id (set_list env f (version f.team_id w) (select f w.tables) w)
  unfolding set_list
  set_list-Coherent f w rf coherent =
      let after = set_list env f (version f.team_id w) (select f w.tables) w in
      elim (Bool-cases (env.fails w.sent)) [
        | inl down ↦
            let e : after ≡ counted w = simp down in subst (Coherent f.team_id) (sym e) coherent
        | inr up ↦
            let e : after ≡ stored_list f w = simp up in
            subst (Coherent f.team_id) (sym e) (stored_list-Coherent f w rf coherent)
      ]

  -- After the version is raised, nothing that was stored is found.
  pub invalidate_team-Coherent :
      (team_id : ℕ) (w before : World)
      → env.fails w.sent ≡ false
      → w.redis ≡ before.redis
      → Coherent team_id before
      → Coherent team_id (invalidate_team env team_id w)
  unfolding invalidate_team
  invalidate_team-Coherent team_id w before up same coherent =
      let e : invalidate_team env team_id w ≡ raised team_id w = simp up in
      subst (Coherent team_id) (sym e) new
    where
      new : Coherent team_id (raised team_id w)
      new g v tasks of_team rg ahead stored =
          let next : version team_id (raised team_id w) ≡ suc (version team_id before) =
            simp (==_refl team_id, same) in
          let past : version team_id before ≤ v = omega arith in
          let (now, _) =
            coherent g v tasks of_team rg past
              (ap (λ r. r.lists (list_key g v)) (sym same) ∙ stored) in
          absurd (omega arith)

  -- Raising the version of one team leaves the lists of another as they were.
  pub invalidate_other-Coherent :
      (team_id other : ℕ) (w : World)
      → team_id ≢ other
      → Coherent other w
      → Coherent other (invalidate_team env team_id w)
  unfolding invalidate_team
  invalidate_other-Coherent team_id other w apart coherent = elim (Bool-cases (env.fails w.sent)) [
    | inl down ↦
        let e : invalidate_team env team_id w ≡ counted w = simp down in
        subst (Coherent other) (sym e) coherent
    | inr up ↦
        let e : invalidate_team env team_id w ≡ raised team_id w = simp up in
        subst (Coherent other) (sym e) unmoved
  ]
    where
      unmoved : Coherent other (raised team_id w)
      unmoved g v tasks of_team rg ahead stored =
          let differ : (other == team_id) ≡ false = ground arith in
          let same : version other (raised team_id w) ≡ version other w = simp differ in
          let (now, right) = coherent g v tasks of_team rg (omega arith) stored in
          (now ∙ sym same, right)
