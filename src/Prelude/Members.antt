-- ===== src/Prelude/Members.antt =====
-- Membership in lists: the relation, and the Boolean test on texts that stands for a Go map used
-- as a set.
use Prim.Native.String.{String}
use mathlib.Core.Path.{◌≡◌, refl, ap, sym, subst}
use mathlib.Core.Logic.{◌↔◌, ◌⊎◌, inl, inr}
use mathlib.Core.Bool.{Bool, true, false, ◌||◌}
use mathlib.Core.List.{List, [], ◌∷◌, ◌++◌, map}
use native.Mathlib.Omega.{arith}
use text.Mathlib.Text.{◌==◌}
use text.Mathlib.TextEquality.{eq_iff}
use signal_ledger_project.Prelude.Lists.{All, keep, first, update_where}
use signal_ledger_project.Prelude.Tests.{if◌then◌else◌}
use mathlib.Core.Option.{some}

-- `a` stands in the list.
abbrev pub In : {A : Type 0} → A → List A → Type 0
In a [] = ⊥
In a (x ∷ xs) = (a ≡ x) ⊎ In a xs

-- No element stands twice.
abbrev pub Distinct : {A : Type 0} → List A → Type 0
Distinct [] = Unit
Distinct (x ∷ xs) = (¬ In x xs) × Distinct xs

module _ {A : Type 0} where
  pub In-append_left : (a : A) (xs ys : List A) → In a xs → In a (xs ++ ys)
  In-append_left a [] ys h = absurd h
  In-append_left a (x ∷ xs) ys (inl e) = inl e
  In-append_left a (x ∷ xs) ys (inr h) = inr (In-append_left a xs ys h)

  pub In-append_right : (a : A) (xs ys : List A) → In a ys → In a (xs ++ ys)
  In-append_right a [] ys h = h
  In-append_right a (x ∷ xs) ys h = inr (In-append_right a xs ys h)

  pub In-append_cases : (a : A) (xs ys : List A) → In a (xs ++ ys) → In a xs ⊎ In a ys
  In-append_cases a [] ys h = inr h
  In-append_cases a (x ∷ xs) ys (inl e) = inl (inl e)
  In-append_cases a (x ∷ xs) ys (inr h) = elim (In-append_cases a xs ys h) [
    | inl k ↦ inl (inr k)
    | inr k ↦ inr k
  ]

  pub In-of_keep : (p : A → Bool) (a : A) (xs : List A) → In a (keep p xs) → In a xs × (p a ≡ true)
  unfolding keep
  In-of_keep p a [] h = absurd h
  In-of_keep p a (x ∷ xs) h = ground (arith, In-of_keep p a xs)

  pub In-keep : (p : A → Bool) (a : A) (xs : List A) → In a xs → p a ≡ true → In a (keep p xs)
  unfolding keep
  In-keep p a [] h t = h
  In-keep p a (x ∷ xs) h t = ground (arith, In-keep p a xs)

  pub All-In : (P : A → Type 0) (a : A) (xs : List A) → All P xs → In a xs → P a
  All-In P a [] h k = absurd k
  All-In P a (x ∷ xs) h (inl e) = subst P (sym e) h.0
  All-In P a (x ∷ xs) h (inr k) = All-In P a xs h.1 k

  pub All-of_In : (P : A → Type 0) (xs : List A) → ((a : A) → In a xs → P a) → All P xs
  All-of_In P [] f = tt
  All-of_In P (x ∷ xs) f = (f x (inl refl), All-of_In P xs (λ a h. f a (inr h)))

module _ {A B : Type 0} (f : A → B) where
  pub In-map : (a : A) (xs : List A) → In a xs → In (f a) (map f xs)
  In-map a [] h = h
  In-map a (x ∷ xs) (inl e) = inl (ap f e)
  In-map a (x ∷ xs) (inr h) = inr (In-map a xs h)

  pub In-map_cases : (b : B) (xs : List A) → In b (map f xs) → (a : A) × In a xs × (b ≡ f a)
  In-map_cases b [] h = absurd h
  In-map_cases b (x ∷ xs) (inl e) = (x, inl refl, e)
  In-map_cases b (x ∷ xs) (inr h) = let k = In-map_cases b xs h in (k.0, inr k.1, k.2)

-- Whether a text stands in a list.
unfoldable pub contains : List String → String → Bool
contains [] a = false
contains (x ∷ xs) a = a == x || contains xs a

pub contains_iff : (xs : List String) (a : String) → (contains xs a ≡ true) ↔ In a xs
unfolding contains
contains_iff [] a = (λ h. cc, λ h. absurd h)
contains_iff (x ∷ xs) a = ground (arith, contains_iff xs a, eq_iff a x)

pub contains-append :
    (xs ys : List String) (a : String) → contains (xs ++ ys) a ≡ (contains xs a || contains ys a)
unfolding contains
contains-append [] ys a = refl
contains-append (x ∷ xs) ys a = ground (arith, contains-append xs ys a)

module _ {A : Type 0} (p : A → Bool) (f : A → A) (x : A) where
  -- What becomes of an element, and what an element was, under an update.
  pub In-update_where : (xs : List A) → In x xs → In (if p x then f x else x) (update_where p f xs)
  unfolding update_where
  In-update_where [] h = h
  In-update_where (y ∷ ys) (inl e) = inl (ap (λ t. if p t then f t else t) e)
  In-update_where (y ∷ ys) (inr h) = inr (In-update_where ys h)

  pub In-update_where_cases :
      (xs : List A)
      → In x (update_where p f xs)
      → (y : A) × In y xs × (x ≡ (if p y then f y else y))
  unfolding update_where
  In-update_where_cases [] h = absurd h
  In-update_where_cases (y ∷ ys) (inl e) = (y, inl refl, e)
  In-update_where_cases (y ∷ ys) (inr h) = let k = In-update_where_cases ys h in (k.0, inr k.1, k.2)

pub first-passes :
    {A : Type 0} (p : A → Bool) (x : A) (xs : List A) → first p xs ≡ some x → In x xs × (p x ≡ true)
unfolding first
first-passes p x [] h = cc
first-passes p x (y ∷ ys) h = ground (arith, first-passes p x ys)
