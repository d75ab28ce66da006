-- ===== src/Prelude/Sorting.antt =====
-- Go's `sort` package as a parameter. Its documentation says that `sort.Slice(x, less)` reorders
-- the slice, and that it is sorted by `less` where `less` is a strict weak order. The order of
-- elements that `less` does not tell apart is not specified.
use mathlib.Core.List.{Permᴰ}
use mathlib.Core.List.Permᴰ
use signal_ledger_project.Prelude.Lists.{All}
use signal_ledger_project.Prelude.Members.{In, Distinct, All-In, All-of_In}
use signal_ledger_project.Prelude.Tests.{if◌then◌else◌, Bool-cases}
use mathlib.Core.Path.{◌≡◌, refl, sym, ◌∙◌, ap₂, subst}
use mathlib.Core.Bool.{Bool, true, false}
use mathlib.Core.Logic.{inl, inr}
use mathlib.Core.List.{List, [], ◌∷◌}

-- No element is less than one that stands before it.
abbrev pub Ordered : {A : Type 0} → (A → A → Bool) → List A → Type 0
Ordered less [] = Unit
Ordered less (x ∷ xs) = All (λ y. less y x ≡ false) xs × Ordered less xs

pub record IsWeakOrder {A : Type 0} (less : A → A → Bool) : Type 0 where
  pub asymm : (a b : A) → less a b ≡ true → less b a ≡ false
  pub trans_not : (a b c : A) → less b a ≡ false → less c b ≡ false → less c a ≡ false

pub record Sorter (A : Type 0) : Type 0 where
  pub sort : (A → A → Bool) → List A → List A
  pub perm : (less : A → A → Bool) (xs : List A) → Permᴰ xs (sort less xs)
  pub ordered : (less : A → A → Bool) (xs : List A) → IsWeakOrder less → Ordered less (sort less xs)

module _ {A : Type 0} where
  pub In-perm : (a : A) {xs ys : List A} → Permᴰ xs ys → In a xs → In a ys
  In-perm a Permᴰ.nil h = h
  In-perm a (Permᴰ.cons e p) (inl q) = inl (q ∙ e)
  In-perm a (Permᴰ.cons e p) (inr h) = inr (In-perm a p h)
  In-perm a (Permᴰ.swap e f) (inl q) = inr (inl (q ∙ e))
  In-perm a (Permᴰ.swap e f) (inr (inl q)) = inl (q ∙ f)
  In-perm a (Permᴰ.swap e f) (inr (inr h)) = inr (inr h)
  In-perm a (Permᴰ.trans p q) h = In-perm a q (In-perm a p h)

  pub Distinct-perm : {xs ys : List A} → Permᴰ xs ys → Distinct xs → Distinct ys
  Distinct-perm Permᴰ.nil d = d
  Distinct-perm (Permᴰ.cons {a = a} {l₂ = m} e p) (n, d) =
      (λ h. n (In-perm a (Permᴰ.symm p) (subst (λ t. In t m) (sym e) h)), Distinct-perm p d)
  Distinct-perm (Permᴰ.swap {l = l} e f) (n, (m, d)) = (
    λ h. elim h [ inl q ↦ n (inl (e ∙ sym q ∙ sym f)) | inr k ↦ m (subst (λ t. In t l) (sym f) k) ],
    (λ k. n (inr (subst (λ t. In t l) (sym e) k)), d),
  )
  Distinct-perm (Permᴰ.trans p q) d = Distinct-perm q (Distinct-perm p d)

  -- Two ordered lists with the same elements, none of them twice, are equal, where the order tells
  -- every two of those elements apart.
  pub Ordered-unique :
      (less : A → A → Bool) (xs ys : List A)
      → ((a b : A) → In a xs → In b xs → less a b ≡ false → less b a ≡ false → a ≡ b)
      → Ordered less xs
      → Ordered less ys
      → Distinct xs
      → Distinct ys
      → ((a : A) → In a xs → In a ys)
      → ((a : A) → In a ys → In a xs)
      → xs ≡ ys
  Ordered-unique less [] [] t ox oy dx dy to from = refl
  Ordered-unique less [] (y ∷ ys) t ox oy dx dy to from = absurd (from y (inl refl))
  Ordered-unique less (x ∷ xs) [] t ox oy dx dy to from = absurd (to x (inl refl))
  Ordered-unique less (x ∷ xs) (y ∷ ys) t ox oy dx dy to from = ap₂ ◌∷◌ heads (
      Ordered-unique less xs ys (λ a b h k. t a b (inr h) (inr k)) ox.1 oy.1 dx.1 dy.1
        (λ a h. rest_to a h (to a (inr h))) (λ a h. rest_from a h (from a (inr h))))
    where
      heads_by : In x (y ∷ ys) → In y (x ∷ xs) → x ≡ y
      heads_by (inl e) k = e
      heads_by (inr h) (inl e) = sym e
      heads_by (inr h) (inr k) =
          t x y (inl refl) (inr k) (All-In (λ z. less z y ≡ false) x ys oy.0 h)
            (All-In (λ z. less z x ≡ false) y xs ox.0 k)

      heads : x ≡ y
      heads = heads_by (to x (inl refl)) (from y (inl refl))

      rest_to : (a : A) → In a xs → In a (y ∷ ys) → In a ys
      rest_to a h (inl e) = absurd (dx.0 (subst (λ z. In z xs) (e ∙ sym heads) h))
      rest_to a h (inr k) = k

      rest_from : (a : A) → In a ys → In a (x ∷ xs) → In a xs
      rest_from a h (inl e) = absurd (dy.0 (subst (λ z. In z ys) (e ∙ heads) h))
      rest_from a h (inr k) = k

  -- So a sort of distinct elements is determined by which elements there are.
  pub sort_unique :
      (s : Sorter A) (less : A → A → Bool)
      → IsWeakOrder less
      → (xs ys : List A)
      → ((a b : A) → In a xs → In b xs → less a b ≡ false → less b a ≡ false → a ≡ b)
      → Distinct xs
      → Distinct ys
      → ((a : A) → In a xs → In a ys)
      → ((a : A) → In a ys → In a xs)
      → s.sort less xs ≡ s.sort less ys
  sort_unique s less w xs ys t dx dy to from =
      Ordered-unique less _ _
        (λ a b h k.
          t a b (In-perm a (Permᴰ.symm (s.perm less xs)) h)
            (In-perm b (Permᴰ.symm (s.perm less xs)) k))
        (s.ordered less xs w) (s.ordered less ys w) (Distinct-perm (s.perm less xs) dx)
        (Distinct-perm (s.perm less ys) dy)
        (λ a h. In-perm a (s.perm less ys) (to a (In-perm a (Permᴰ.symm (s.perm less xs)) h)))
        (λ a h. In-perm a (s.perm less xs) (from a (In-perm a (Permᴰ.symm (s.perm less ys)) h)))

-- An insertion sort: the interface can be met.
module _ {A : Type 0} (less : A → A → Bool) where
  unfoldable pub insert : A → List A → List A
  insert a [] = a ∷ []
  insert a (x ∷ xs) = let rest = insert a xs in if less x a then x ∷ rest else a ∷ x ∷ xs

  unfoldable pub insertion_sort : List A → List A
  insertion_sort [] = []
  insertion_sort (x ∷ xs) = insert x (insertion_sort xs)

  insert-perm : (a : A) (xs : List A) → Permᴰ (a ∷ xs) (insert a xs)
  unfolding insert
  insert-perm a [] = Permᴰ.refl _
  insert-perm a (x ∷ xs) = elim (Bool-cases (less x a)) [
    | inl e ↦ rw e (Permᴰ.trans (Permᴰ.swap refl refl) (Permᴰ.cons refl (insert-perm a xs)))
    | inr e ↦ rw e (Permᴰ.refl _)
  ]

  pub insertion_sort-perm : (xs : List A) → Permᴰ xs (insertion_sort xs)
  unfolding insertion_sort
  insertion_sort-perm [] = Permᴰ.nil
  insertion_sort-perm (x ∷ xs) =
      Permᴰ.trans (Permᴰ.cons refl (insertion_sort-perm xs)) (insert-perm x (insertion_sort xs))

  insert-Ordered :
      IsWeakOrder less → (a : A) (xs : List A) → Ordered less xs → Ordered less (insert a xs)
  unfolding insert
  insert-Ordered w a [] o = (tt, tt)
  insert-Ordered w a (x ∷ xs) o = elim (Bool-cases (less x a)) [
    | inl e ↦ rw e (
      All-of_In _ (insert a xs) (λ b h. after b (In-perm b (Permᴰ.symm (insert-perm a xs)) h) e),
      insert-Ordered w a xs o.1,
    )
    | inr e ↦ rw e (
      (e, All-of_In _ xs (λ b h. w.trans_not a x b e (All-In (λ y. less y x ≡ false) b xs o.0 h))),
      o,
    )
  ]
    where
      after : (b : A) → In b (a ∷ xs) → less x a ≡ true → less b x ≡ false
      after b (inl q) e = rw q (w.asymm x a e)
      after b (inr h) e = All-In (λ y. less y x ≡ false) b xs o.0 h

  pub insertion_sort-Ordered : IsWeakOrder less → (xs : List A) → Ordered less (insertion_sort xs)
  unfolding insertion_sort
  insertion_sort-Ordered w [] = tt
  insertion_sort-Ordered w (x ∷ xs) =
      insert-Ordered w x (insertion_sort xs) (insertion_sort-Ordered w xs)

abbrev pub insertion_sorter : {A : Type 0} → Sorter A
insertion_sorter = record {
  sort = insertion_sort;
  perm = insertion_sort-perm;
  ordered = λ less xs w. insertion_sort-Ordered less w xs;
}
