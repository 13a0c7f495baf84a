-- ===== src/Persistence/Tasks/Diff.antt =====
-- Which changes `Update` records.
use task_tracker.Base.{
  ℕ, ◌≡◌, ◌≢◌, refl, sym, ap, ◌∙◌, ◌↔◌, Option, none, some, List, [], ◌∷◌, ◌++◌, Text, ascii,
  decimal-injective, decimal-ne-nil, text_eq, ◌==◌, text_eq_sound, text_eq_refl, All, All-append,
  Bool-cases, inl, inr, if◌then◌else◌,
}
use task_tracker.Domain.{Task, TaskStatus, unset, todo, in_progress, done, status_text}
use task_tracker.Persistence.Tasks.{Change, add_change, format_id, diff}

append_one-ne-nil : {A : Type 0} (xs : List A) (x : A) → xs ++ x ∷ [] ≢ []
append_one-ne-nil [] x h = cc
append_one-ne-nil (y ∷ xs) x h = cc

add_change-nil :
    (changes : List Change) (field old_v new_v : Text)
    → add_change changes field old_v new_v ≡ []
    → (changes ≡ []) × (old_v ≡ new_v)
unfolding add_change
add_change-nil changes field old_v new_v h = elim (Bool-cases (text_eq old_v new_v)) [
  | inl same ↦ (rw same at h, text_eq_sound old_v new_v same)
  | inr differ ↦ absurd (append_one-ne-nil changes _ (rw differ at h))
]

-- The status whose text begins with this byte.
status_of_head : Text → TaskStatus
status_of_head [] = unset
status_of_head (c ∷ _) = if c == 116 then todo else if c == 105 then in_progress else done

status_of_head-status_text : (a : TaskStatus) → status_of_head (status_text a) ≡ a
unfolding status_of_head
status_of_head-status_text unset = refl
status_of_head-status_text todo = refl
status_of_head-status_text in_progress = refl
status_of_head-status_text done = refl

pub status_text-injective : (a b : TaskStatus) → status_text a ≡ status_text b → a ≡ b
status_text-injective a b h =
    sym (status_of_head-status_text a) ∙ ap status_of_head h ∙ status_of_head-status_text b

format_id-injective : (a b : Option ℕ) → format_id a ≡ format_id b → a ≡ b
unfolding format_id
format_id-injective none none h = refl
format_id-injective none (some b) h = absurd (decimal-ne-nil b (sym h))
format_id-injective (some a) none h = absurd (decimal-ne-nil a h)
format_id-injective (some a) (some b) h = ap some (decimal-injective a b h)

-- An update records no change exactly when the title, the description, the status and the assignee
-- are as they were.
pub diff-nil_iff :
    (old t : Task)
    → (diff old t ≡ []) ↔ (
        (old.title ≡ t.title)
        × (old.description ≡ t.description)
        × (old.status ≡ t.status)
        × (old.assignee_id ≡ t.assignee_id))
unfolding diff
diff-nil_iff old t = (unchanged, nothing)
  where
    unchanged :
        diff old t ≡ []
        → (old.title ≡ t.title)
          × (old.description ≡ t.description)
          × (old.status ≡ t.status)
          × (old.assignee_id ≡ t.assignee_id)
    unchanged h =
        let title = add_change [] (ascii "title") old.title t.title in
        let description = add_change title (ascii "description") old.description t.description in
        let status =
          add_change description (ascii "status") (status_text old.status) (status_text t.status) in
        let (h₃, assignee) = add_change-nil status _ _ _ h in
        let (h₂, same_status) = add_change-nil description _ _ _ h₃ in
        let (h₁, same_description) = add_change-nil title _ _ _ h₂ in
        let (_, same_title) = add_change-nil [] _ _ _ h₁ in
        (
          same_title,
          same_description,
          status_text-injective old.status t.status same_status,
          format_id-injective old.assignee_id t.assignee_id assignee,
        )

    nothing :
        (old.title ≡ t.title)
          × (old.description ≡ t.description)
          × (old.status ≡ t.status)
          × (old.assignee_id ≡ t.assignee_id)
        → diff old t ≡ []
    nothing (e₁, e₂, e₃, e₄) = simp (e₁, e₂, e₃, e₄, text_eq_refl)

abbrev pub IsChange : Change → Type 0
IsChange ch = ch.old_value ≢ ch.new_value

add_change-IsChange :
    (changes : List Change) (field old_v new_v : Text)
    → All IsChange changes
    → All IsChange (add_change changes field old_v new_v)
unfolding add_change
add_change-IsChange changes field old_v new_v h =
    let same = text_eq_refl new_v in
    elim (Bool-cases (text_eq old_v new_v)) [
      | inl same ↦ rw same h
      | inr differ ↦ rw differ (
          All-append IsChange changes
            (record { field = field; old_value = old_v; new_value = new_v } ∷ []) h ((λ e. cc), tt))
    ]

-- In each change that an update records, the old text and the new text differ.
pub diff-IsChange : (old t : Task) → All IsChange (diff old t)
unfolding diff
diff-IsChange old t =
    add_change-IsChange _ (ascii "assignee_id") (format_id old.assignee_id)
      (format_id t.assignee_id)
      (add_change-IsChange _ (ascii "status") (status_text old.status) (status_text t.status) (
        add_change-IsChange _ (ascii "description") old.description t.description
          (add_change-IsChange [] (ascii "title") old.title t.title tt)))
