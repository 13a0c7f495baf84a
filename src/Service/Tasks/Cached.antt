-- ===== src/Service/Tasks/Cached.antt =====
-- `List` of internal/service/tasks.go with its cache, against the query alone.
use task_tracker.Base.{
  ℕ, suc, ◌≡◌, refl, sym, ap, subst, ◌∙◌, some, List, Bool-cases, Option-cases, ◌⊎◌, inl, inr,
  arith,
}
use task_tracker.Tx.{Outcome, ok, ◌>>=◌, bind-ok}
use task_tracker.Domain.{Error, Task, TaskFilter, member}
use task_tracker.Store.{Env, World, counted, query-ok}
use task_tracker.Persistence.Tasks
use task_tracker.Persistence.Tasks.{select}
use task_tracker.Service.Authorizer.{require_team_role}
use task_tracker.Service.Authorizer.Access.{
  MayAct, require_team_role-MayAct, require_team_role-reads, require_team_role-keeps_redis,
}
use task_tracker.Service.Cache.{
  or_zero, list_key, Lookup, hit, miss, version_unknown, get_list, set_list,
}
use task_tracker.Service.Cache.Keys.{IsRequest}
use task_tracker.Service.Cache.Coherence.{version, Coherent, set_list-Coherent, set_list-reads}
use task_tracker.Service.Tasks.{fill, answer, look_up, list}

pub Coherent-same :
    (team_id : ℕ) (w w' : World)
    → w'.redis ≡ w.redis
    → w'.tables ≡ w.tables
    → Coherent team_id w
    → Coherent team_id w'
Coherent-same team_id w w' redis tables coherent =
    subst (λ (r : _ × _). Coherent team_id (record w { redis = r.0; tables = r.1 }))
      (λ i. (sym redis i, sym tables i)) coherent

-- It is enough that the team's lists are as they were.
pub Coherent-select :
    (team_id : ℕ) (w w' : World)
    → w'.redis ≡ w.redis
    → ((f : TaskFilter) → f.team_id ≡ team_id → select f w'.tables ≡ select f w.tables)
    → Coherent team_id w
    → Coherent team_id w'
Coherent-select team_id w w' redis same coherent f v tasks of_team rf ahead stored =
    let versions : version team_id w' ≡ version team_id w =
      ap (λ r. or_zero (r.versions team_id)) redis in
    let (now, right) =
      coherent f v tasks of_team rf (omega arith)
        (ap (λ r. r.lists (list_key f v)) (sym redis) ∙ stored) in
    (now ∙ sym versions, right ∙ sym (same f of_team))

module _ (env : Env) where
  get_list-cases :
      (f : TaskFilter) (w : World)
      → (get_list env f w ≡ (version_unknown, counted w))
        ⊎ (get_list env f w ≡ (miss (version f.team_id w), counted (counted w)))
        ⊎ ((tasks : List Task) × (w.redis.lists (list_key f (version f.team_id w)) ≡ some tasks)
            × (get_list env f w ≡ (hit tasks, counted (counted w))))
  unfolding get_list
  get_list-cases f w = elim (Bool-cases (env.fails w.sent)) [
    | inl down ↦ inl (simp down)
    | inr up ↦ elim (Bool-cases (env.fails (suc w.sent))) [
      | inl down ↦ inr (inl (simp (up, down)))
      | inr still_up ↦ elim (Option-cases (w.redis.lists (list_key f (version f.team_id w)))) [
        | inl nothing ↦ inr (inl (simp (up, still_up, nothing)))
        | inr (tasks, found) ↦ inr (inr (tasks, found, simp (up, still_up, found)))
      ]
    ]
  ]

  -- What is served for a team's filter, once the role has been checked.
  abbrev Served : TaskFilter → World → Outcome Error (List Task) × World → Type 0
  Served f w r =
      (tasks : List Task)
      → r.0 ≡ ok tasks
      → (tasks ≡ select f w.tables) × Coherent f.team_id r.1 × (r.1.tables ≡ w.tables)

  answer_hit-Served :
      (f : TaskFilter) (w : World) (tasks : List Task)
      → IsRequest f
      → Coherent f.team_id w
      → w.redis.lists (list_key f (version f.team_id w)) ≡ some tasks
      → Served f w (answer env f (hit tasks) (counted (counted w)))
  answer_hit-Served f w tasks rf coherent found ts h =
      let (_, right) = coherent f (version f.team_id w) tasks refl rf (omega arith) found in
      let same : tasks ≡ ts = cc in (sym same ∙ right, coherent, refl)

  answer_miss-Served :
      (f : TaskFilter) (w : World)
      → IsRequest f
      → Coherent f.team_id w
      → Served f w (answer env f (miss (version f.team_id w)) (counted (counted w)))
  unfolding Tasks.list
  answer_miss-Served f w rf coherent ts h =
      let w₂ = counted (counted w) in
      let (got, asked, more, e) =
        bind-ok (Tasks.list env f) (fill env f (miss (version f.team_id w))) w₂ ts h in
      let right = query-ok env (select f) w₂ got asked in
      let same : got ≡ ts = cc in
      let e' =
        ap (λ p. p.1) e
        ∙ ap (λ l. set_list env f (version f.team_id w) l (counted w₂)) (sym right) in
      (
        sym same ∙ sym right,
        subst (Coherent f.team_id) (sym e') (set_list-Coherent env f (counted w₂) rf coherent),
        ap (λ v. v.tables) e'
            ∙ set_list-reads env f (version f.team_id w) (select f w.tables) (counted w₂),
      )

  answer_unknown-Served :
      (f : TaskFilter) (w : World)
      → Coherent f.team_id w
      → Served f w (answer env f version_unknown (counted w))
  unfolding Tasks.list
  answer_unknown-Served f w coherent ts h =
      let (got, asked, more, e) =
        bind-ok (Tasks.list env f) (fill env f version_unknown) (counted w) ts h in
      let right = query-ok env (select f) (counted w) got asked in
      let same : got ≡ ts = cc in
      (
        sym same ∙ sym right,
        subst (Coherent f.team_id) (sym (ap (λ p. p.1) e)) coherent,
        ap (λ p. p.1.tables) e,
      )

  answer-Served :
      (f : TaskFilter) (w : World)
      → IsRequest f
      → Coherent f.team_id w
      → Served f w ((look_up env f >>= answer env f) w)
  answer-Served f w rf coherent =
      let served : Lookup × World → Type 0 = λ r. Served f w (answer env f r.0 r.1) in
      elim (get_list-cases f w) [
        | inl e ↦ subst served (sym e) (answer_unknown-Served f w coherent)
        | inr (inl e) ↦ subst served (sym e) (answer_miss-Served f w rf coherent)
        | inr (inr (tasks, found, e)) ↦
            subst served (sym e) (answer_hit-Served f w tasks rf coherent found)
      ]

  -- If the cached lists of a team are coherent, and a filter of that team has neither the empty
  -- status nor the assignee zero, then a call of List that returns tasks was made by an actor with
  -- a role in the team or by an admin, returns what the query selects from the tables, leaves the
  -- tables as they were, and leaves the cached lists of the team coherent.
  pub list-Coherent :
      (actor_id : ℕ) (f : TaskFilter) (w : World) (tasks : List Task)
      → IsRequest f
      → Coherent f.team_id w
      → (list env actor_id f w).0 ≡ ok tasks
      → MayAct w.tables actor_id f.team_id member
        × (tasks ≡ select f w.tables)
        × Coherent f.team_id (list env actor_id f w).1
        × ((list env actor_id f w).1.tables ≡ w.tables)
  unfolding list
  list-Coherent actor_id f w tasks rf coherent h =
      let role = require_team_role env actor_id f.team_id member in
      let w₁ = (role w).1 in
      let same = require_team_role-reads env actor_id f.team_id member w in
      let (_, passed, more, e) = bind-ok role (λ _. look_up env f >>= answer env f) w tasks h in
      let still =
        Coherent-same f.team_id w w₁ (require_team_role-keeps_redis env actor_id f.team_id member w)
          same coherent in
      let (right, after, reads) = answer-Served f w₁ rf still tasks more in
      (
        require_team_role-MayAct env actor_id f.team_id member w passed,
        right ∙ ap (select f) same,
        subst (Coherent f.team_id) (sym (ap (λ p. p.1) e)) after,
        ap (λ p. p.1.tables) e ∙ reads ∙ same,
      )
