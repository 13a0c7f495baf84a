-- ===== src/Http/Trim/Trimmed.antt =====
-- What `strings.TrimSpace` leaves has no white space at its ends.
use task_tracker.Base.{
  ℕ, zero, suc, ◌≤◌, ◌<◌, ◌≡◌, refl, sym, ap, ◌∙◌, none, some, List, [], ◌∷◌, ◌++◌, Text, map,
  length, length-append, All, Option-cases, inl, inr, arith, append_assoc,
}
use mathlib.Core.List.{reverse, reverse-append, reverse-reverse}
use task_tracker.Http.Trim.{cut_prefix, cut_any, spaces, trim_left, trim_space}

abbrev IsText : Text → Type 0
IsText s = 0 < length s

cut_prefix-shorter :
    (p s rest : Text) → IsText p → cut_prefix p s ≡ some rest → length rest < length s
unfolding cut_prefix
cut_prefix-shorter [] s rest some_byte h = absurd (omega arith)
cut_prefix-shorter (b ∷ []) [] rest some_byte h = cc
cut_prefix-shorter (b ∷ []) (c ∷ s) rest some_byte h = ground arith
cut_prefix-shorter (b ∷ b' ∷ p) [] rest some_byte h = cc
cut_prefix-shorter (b ∷ b' ∷ p) (c ∷ s) rest some_byte h =
    ground (arith, cut_prefix-shorter (b' ∷ p) s rest (omega arith))

cut_prefix-append :
    (p a b rest : Text) → cut_prefix p a ≡ some rest → cut_prefix p (a ++ b) ≡ some (rest ++ b)
unfolding cut_prefix
cut_prefix-append [] a b rest h = ground arith
cut_prefix-append (c ∷ p) [] b rest h = cc
cut_prefix-append (c ∷ p) (d ∷ a) b rest h = ground (arith, cut_prefix-append p a b rest)

cut_any-shorter :
    (ps : List Text) (s rest : Text)
    → All IsText ps
    → cut_any ps s ≡ some rest
    → length rest < length s
unfolding cut_any
cut_any-shorter [] s rest texts h = cc
cut_any-shorter (p ∷ ps) s rest (text, texts) h = elim (Option-cases (cut_prefix p s)) [
  | inl e ↦ cut_any-shorter ps s rest texts (rw e at h)
  | inr (r, e) ↦ cut_prefix-shorter p s rest text (e ∙ (rw e at h))
]

cut_any-nil : (ps : List Text) → All IsText ps → cut_any ps [] ≡ none
unfolding cut_any cut_prefix
cut_any-nil [] texts = refl
cut_any-nil ([] ∷ ps) (text, texts) = absurd (omega arith)
cut_any-nil ((b ∷ p) ∷ ps) (text, texts) = cut_any-nil ps texts

-- The start of a text begins with nothing that the text does not begin with.
cut_any-front : (ps : List Text) (a b : Text) → cut_any ps (a ++ b) ≡ none → cut_any ps a ≡ none
unfolding cut_any
cut_any-front [] a b h = refl
cut_any-front (p ∷ ps) a b h = elim (Option-cases (cut_prefix p a)) [
  | inl e ↦ rw e (cut_any-front ps a b (ground (arith, h)))
  | inr (r, e) ↦ absurd (ground (arith, h, cut_prefix-append p a b r e))
]

trim_left-IsTrimmed :
    (fuel : ℕ) (ps : List Text) (s : Text)
    → All IsText ps
    → length s ≤ fuel
    → cut_any ps (trim_left fuel ps s) ≡ none
unfolding trim_left
trim_left-IsTrimmed zero ps [] texts enough = cut_any-nil ps texts
trim_left-IsTrimmed zero ps (b ∷ s) texts enough = absurd (omega arith)
trim_left-IsTrimmed (suc fuel) ps s texts enough = elim (Option-cases (cut_any ps s)) [
  | inl e ↦ rw e e
  | inr (rest, e) ↦
      rw e
        (trim_left-IsTrimmed fuel ps rest texts (omega (arith, cut_any-shorter ps s rest texts e)))
]

cut_prefix-eq : (p s rest : Text) → cut_prefix p s ≡ some rest → s ≡ p ++ rest
unfolding cut_prefix
cut_prefix-eq [] s rest h = ground arith
cut_prefix-eq (c ∷ p) [] rest h = cc
cut_prefix-eq (c ∷ p) (d ∷ s) rest h = ground (arith, cut_prefix-eq p s rest)

cut_any-eq :
    (ps : List Text) (s rest : Text) → cut_any ps s ≡ some rest → (p : Text) × (s ≡ p ++ rest)
unfolding cut_any
cut_any-eq [] s rest h = cc
cut_any-eq (p ∷ ps) s rest h = elim (Option-cases (cut_prefix p s)) [
  | inl e ↦ cut_any-eq ps s rest (rw e at h)
  | inr (r, e) ↦ (p, cut_prefix-eq p s rest (e ∙ (rw e at h)))
]

trim_left-eq :
    (fuel : ℕ) (ps : List Text) (s : Text) → (cut : Text) × (s ≡ cut ++ trim_left fuel ps s)
unfolding trim_left
trim_left-eq zero ps s = ([], refl)
trim_left-eq (suc fuel) ps s = elim (Option-cases (cut_any ps s)) [
  | inl e ↦ ([], rw e refl)
  | inr (rest, e) ↦
      let (p, start) = cut_any-eq ps s rest e in
      let (cut, more) = trim_left-eq fuel ps rest in
      (
        p ++ cut,
        rw e (start ∙ ap (λ r. p ++ r) more ∙ sym (append_assoc p cut (trim_left fuel ps rest))),
      )
]

pub length-reverse : (s : Text) → length (reverse s) ≡ length s
length-reverse [] = refl
length-reverse (b ∷ s) =
    ap length (reverse-append (b ∷ []) s)
    ∙ length-append (reverse s) (b ∷ [])
    ∙ omega (arith, length-reverse s)

spaces_are_texts : All IsText spaces
spaces_are_texts = omega arith

reversed_are_texts : All IsText (map reverse spaces)
reversed_are_texts = omega arith

-- No white space at the start, and none at the end.
pub record IsTrimmed (s : Text) : Type 0 where
  pub start : cut_any spaces s ≡ none
  pub end : cut_any (map reverse spaces) (reverse s) ≡ none

pub trim_space-IsTrimmed : (s : Text) → IsTrimmed (trim_space s)
unfolding trim_space
trim_space-IsTrimmed s =
    let front = trim_left (length s) spaces s in
    let back = trim_left (length front) (map reverse spaces) (reverse front) in
    let (cut, whole) = trim_left-eq (length front) (map reverse spaces) (reverse front) in
    let parts : front ≡ reverse back ++ reverse cut =
      sym (reverse-reverse front) ∙ ap reverse whole ∙ reverse-append cut back in
    record {
      start = cut_any-front spaces (reverse back) (reverse cut) (
          ap (cut_any spaces) (sym parts)
          ∙ trim_left-IsTrimmed (length s) spaces s spaces_are_texts (omega arith));
      end =
          ap (cut_any (map reverse spaces)) (reverse-reverse back)
          ∙ trim_left-IsTrimmed (length front) (map reverse spaces) (reverse front)
              reversed_are_texts (omega (arith, length-reverse front));
    }
