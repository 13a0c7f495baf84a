-- ===== src/Service/Cache/Keys.antt =====
-- `listKey` of internal/infrastructure/cache/tasks.go tells filters apart.
use task_tracker.Base.{
  ℕ, ◌≡◌, ◌≢◌, refl, sym, ap, Bool, true, false, Option, none, some, text_eq, text_eq_sound, ◌==◌,
  ==_iff, if◌then◌else◌,
}
use task_tracker.Domain.{TaskStatus, unset, TaskFilter}
use task_tracker.Store.{ListKey}
use task_tracker.Persistence.Tasks.Diff.{status_text-injective}
use task_tracker.Service.Cache.{list_key, same_key, or_zero, text_or_empty}

-- A filter as a request makes it: a status that is given has a text, an assignee is not zero.
pub record IsRequest (f : TaskFilter) : Type 0 where
  pub status : f.status ≢ some unset
  pub assignee : f.assignee_id ≢ some 0

if_true : (a b : Bool) → (if a then b else false) ≡ true → (a ≡ true) × (b ≡ true)
if_true true b h = (refl, h)
if_true false b h = cc

pub same_key_sound : (a b : ListKey) → same_key a b ≡ true → a ≡ b
unfolding same_key
same_key_sound a b h =
    let (team, h₁) = if_true (a.team_id == b.team_id) _ h in
    let (version, h₂) = if_true (a.version == b.version) _ h₁ in
    let (status, h₃) = if_true (text_eq a.status b.status) _ h₂ in
    let (assignee, h₄) = if_true (a.assignee == b.assignee) _ h₃ in
    let (after, limit) = if_true (a.after_id == b.after_id) _ h₄ in
    λ i. record {
      team_id = (==_iff a.team_id b.team_id).0 team i;
      version = (==_iff a.version b.version).0 version i;
      status = text_eq_sound a.status b.status status i;
      assignee = (==_iff a.assignee b.assignee).0 assignee i;
      after_id = (==_iff a.after_id b.after_id).0 after i;
      limit = (==_iff a.limit b.limit).0 limit i;
    }

text_or_empty-injective :
    (a b : Option TaskStatus)
    → a ≢ some unset
    → b ≢ some unset
    → text_or_empty a ≡ text_or_empty b
    → a ≡ b
text_or_empty-injective none none p q h = refl
text_or_empty-injective none (some b) p q h =
    absurd (q (ap some (sym (status_text-injective unset b h))))
text_or_empty-injective (some a) none p q h = absurd (p (ap some (status_text-injective a unset h)))
text_or_empty-injective (some a) (some b) p q h = ap some (status_text-injective a b h)

or_zero-injective : (a b : Option ℕ) → a ≢ some 0 → b ≢ some 0 → or_zero a ≡ or_zero b → a ≡ b
or_zero-injective none none p q h = refl
or_zero-injective none (some b) p q h = absurd (q (ap some (sym h)))
or_zero-injective (some a) none p q h = absurd (p (ap some h))
or_zero-injective (some a) (some b) p q h = ap some h

-- If two filters have neither the empty status nor the assignee zero, and have one key with two
-- versions, then the filters and the versions are the same.
pub list_key-injective :
    (f g : TaskFilter) (v u : ℕ)
    → IsRequest f
    → IsRequest g
    → list_key f v ≡ list_key g u
    → (f ≡ g) × (v ≡ u)
unfolding list_key
list_key-injective f g v u rf rg h =
    let status =
      text_or_empty-injective f.status g.status rf.status rg.status (ap (λ k. k.status) h) in
    let assignee =
      or_zero-injective f.assignee_id g.assignee_id rf.assignee rg.assignee
        (ap (λ k. k.assignee) h) in
    (
      (λ i. record {
        status = status i;
        assignee_id = assignee i;
        team_id = ap (λ k. k.team_id) h i;
        limit = ap (λ k. k.limit) h i;
        after_id = ap (λ k. k.after_id) h i;
      }),
      ap (λ k. k.version) h,
    )
