-- ===== src/Base/Predicates.antt =====
-- Predicates on lists by recursion, which compute to tuples.
use Prim.Native.Nat.{ℕ, zero, suc}
use mathlib.Core.Path.{◌≡◌, ap, sym, ◌∙◌}
use mathlib.Core.Logic.{◌⊎◌, inl, inr}
use mathlib.Core.Bool.{Bool, true, false}
use mathlib.Core.List.{List, [], ◌∷◌, ◌++◌, map}
use task_tracker.Base.Tests.{if◌then◌else◌, ◌==◌, ==_iff, Bool-cases}
use task_tracker.Base.Lists.{keep, take, contains}

module _ {ℓ κ} {A : Type ℓ} (P : A → Type κ) where
  abbrev pub All : List A → Type κ
  All [] = Unit
  All (x ∷ xs) = P x × All xs

  pub All-append : (xs ys : List A) → All xs → All ys → All (xs ++ ys)
  All-append [] ys hx hy = hy
  All-append (x ∷ xs) ys hx hy = (hx.0, All-append xs ys hx.1 hy)

  pub All-keep : (p : A → Bool) (xs : List A) → All xs → All (keep p xs)
  All-keep p [] h = h
  All-keep p (x ∷ xs) h = elim (p x) as (λ b. All (if b then x ∷ keep p xs else keep p xs)) [
    | true ↦ (h.0, All-keep p xs h.1)
    | false ↦ All-keep p xs h.1
  ]

  pub All-take : (n : ℕ) (xs : List A) → All xs → All (take n xs)
  All-take zero xs h = tt
  All-take (suc n) [] h = tt
  All-take (suc n) (x ∷ xs) h = (h.0, All-take n xs h.1)

-- Membership as a type by recursion; it keeps the place.
abbrev pub In : {A : Type 0} → A → List A → Type 0
In a [] = ⊥
In a (x ∷ xs) = (x ≡ a) ⊎ In a xs

pub In-append : {A : Type 0} (a : A) (xs ys : List A) → In a (xs ++ ys) → In a xs ⊎ In a ys
In-append a [] ys m = inr m
In-append a (x ∷ xs) ys (inl e) = inl (inl e)
In-append a (x ∷ xs) ys (inr m) = elim (In-append a xs ys m) [ inl h ↦ inl (inr h) | inr h ↦ inr h ]

pub In-append_left : {A : Type 0} (a : A) (xs ys : List A) → In a xs → In a (xs ++ ys)
In-append_left a (x ∷ xs) ys (inl e) = inl e
In-append_left a (x ∷ xs) ys (inr m) = inr (In-append_left a xs ys m)
In-append_left a [] ys m = absurd m

pub In-append_right : {A : Type 0} (a : A) (xs ys : List A) → In a ys → In a (xs ++ ys)
In-append_right a [] ys m = m
In-append_right a (x ∷ xs) ys m = inr (In-append_right a xs ys m)

pub contains→In : (a : ℕ) (xs : List ℕ) → contains xs a ≡ true → In a xs
contains→In a [] h = cc
contains→In a (x ∷ xs) h = elim (Bool-cases (x == a)) [
  | inl e ↦ inl ((==_iff x a).0 e)
  | inr ne ↦ inr (contains→In a xs (rw ne at h))
]

pub In-map : {A B : Type 0} (f : A → B) (a : A) (xs : List A) → In a xs → In (f a) (map f xs)
In-map f a (x ∷ xs) (inl e) = inl (ap f e)
In-map f a (x ∷ xs) (inr m) = inr (In-map f a xs m)
In-map f a [] m = absurd m

pub In-keep :
    {A : Type 0} (p : A → Bool) (a : A) (xs : List A) → In a xs → p a ≡ true → In a (keep p xs)
In-keep p a [] m h = absurd m
In-keep p a (x ∷ xs) (inl e) h = rw (ap p e ∙ h) (inl e)
In-keep p a (x ∷ xs) (inr m) h =
    elim (p x) as (λ b. In a (if b then x ∷ keep p xs else keep p xs)) [
      | true ↦ inr (In-keep p a xs m h)
      | false ↦ In-keep p a xs m h
    ]

pub keep-In :
    {A : Type 0} (p : A → Bool) (a : A) (xs : List A) → In a (keep p xs) → In a xs × (p a ≡ true)
keep-In p a [] m = absurd m
keep-In p a (x ∷ xs) m = elim (Bool-cases (p x)) [
  | inl yes' ↦ elim (let k : In a (x ∷ keep p xs) = rw yes' at m in k) [
    | inl e ↦ (inl e, ap p (sym e) ∙ yes')
    | inr later ↦ let (at, h) = keep-In p a xs later in (inr at, h)
  ]
  | inr no' ↦ let (at, h) = keep-In p a xs (rw no' at m) in (inr at, h)
]
