-- ===== src/Prelude/Counting.antt =====
-- A list without repetition is no longer than a list that has its elements.
use Prim.Native.Nat.{suc, ◌≤◌}
use Prim.Native.String.{String}
use mathlib.Core.Path.{◌≡◌, refl, ap, sym, subst, ◌∙◌}
use mathlib.Core.Logic.{◌≢◌, inl, inr}
use mathlib.Core.Bool.{Bool}
use mathlib.Core.List.{List, [], ◌∷◌, map}
use native.Mathlib.Omega.{arith}
use signal_ledger_project.Prelude.Tests.{Bool-cases, if◌then◌else◌}
use signal_ledger_project.Prelude.Lists.{length, keep, count_where}
use signal_ledger_project.Prelude.Members.{
  In, Distinct, In-map, In-map_cases, In-of_keep, contains, contains_iff,
}

module _ {A : Type 0} where
  abbrev Without : A → List A → List A → Type 0
  Without a ys zs = (length ys ≡ suc (length zs)) × ((b : A) → In b ys → b ≢ a → In b zs)

  remove : (a : A) (ys : List A) → In a ys → (zs : List A) × Without a ys zs
  remove a [] h = absurd h
  remove a (y ∷ ys) (inl e) =
      (ys, (refl, λ b k ne. elim k [ inl p ↦ absurd (ne (p ∙ sym e)) | inr m ↦ m ]))
  remove a (y ∷ ys) (inr h) =
      let r = remove a ys h in
      (y ∷ r.0, (ap suc r.1.0, λ b k ne. elim k [ inl p ↦ inl p | inr m ↦ inr (r.1.1 b m ne) ]))

  pub Distinct-length :
      (xs ys : List A) → Distinct xs → ((a : A) → In a xs → In a ys) → length xs ≤ length ys
  Distinct-length [] ys d f = omega arith
  Distinct-length (x ∷ xs) ys d f =
      let r = remove x ys (f x (inl refl)) in
      let shorter =
        Distinct-length xs r.0 d.1
          (λ a h. r.1.1 a (f a (inr h)) (λ e. d.0 (subst (λ t. In t xs) e h))) in
      omega (arith, shorter, r.1.0)

-- Texts of `ys` that fill a list without repetition are all of them.
pub covers :
    (xs ys : List String)
    → Distinct xs
    → ((a : String) → In a xs → In a ys)
    → length xs ≡ length ys
    → (a : String) → In a ys
    → In a xs
covers xs ys d f e a h = elim (Bool-cases (contains xs a)) [
  | inl t ↦ (contains_iff xs a).0 t
  | inr n ↦
      let r = remove a ys h in
      let fits = Distinct-length xs r.0 d (λ b k.
        r.1.1 b (f b k)
          (λ p. absurd (ground (arith, n, (contains_iff xs a).1 (subst (λ t. In t xs) p k))))) in
      absurd (omega (arith, fits, r.1.0, e))
]

pub length-keep {ℓ} :
    {A : Type ℓ} (p : A → Bool) (xs : List A) → length (keep p xs) ≡ count_where p xs
unfolding keep count_where
length-keep p [] = refl
length-keep p (x ∷ xs) = ground (arith, length-keep p xs)

-- Keeping some elements keeps their images distinct.
pub Distinct-keep :
    {A B : Type 0} (f : A → B) (p : A → Bool) (xs : List A)
    → Distinct (map f xs)
    → Distinct (map f (keep p xs))
unfolding keep
Distinct-keep f p [] d = tt
Distinct-keep f p (x ∷ xs) d = elim (Bool-cases (p x)) [
  | inl t ↦
      subst (λ b. Distinct (map f (if b then x ∷ keep p xs else keep p xs))) (sym t)
        ((λ h. d.0 (still h), Distinct-keep f p xs d.1))
  | inr n ↦
      subst (λ b. Distinct (map f (if b then x ∷ keep p xs else keep p xs))) (sym n)
        (Distinct-keep f p xs d.1)
]
  where
    still : In (f x) (map f (keep p xs)) → In (f x) (map f xs)
    still h =
        let k = In-map_cases f (f x) (keep p xs) h in
        subst (λ t. In t (map f xs)) (sym k.2) (In-map f k.0 xs (In-of_keep p k.0 xs k.1).0)
