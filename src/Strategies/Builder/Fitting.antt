-- ===== src/Strategies/Builder/Fitting.antt =====
-- A draft about macro themes has a name and symbols that a spec may have, whichever themes it is about.
use Prim.Native.String.{◌++◌ as append, len}
use signal_ledger_project.Prelude.{
  ◌≤◌, String, ◌≡◌, refl, Bool, true, false, ◌&&◌, Option, none, some, List, [], ◌∷◌, map, arith,
  leb, keep, if◌then◌else◌, All,
}
use signal_ledger_project.Prelude.Float.{Float}
use signal_ledger_project.Prelude.Strings.{trim_space, join, all_chars}
use signal_ledger_project.Domain.Research.{StoredClaim}
use signal_ledger_project.Strategies.Spec.{matches_symbol, check_symbols}
use signal_ledger_project.Strategies.Spec.Valid.{check_symbols_iff}
use signal_ledger_project.Strategies.Themes.{MacroTheme, macro_themes, symbols_of}
use signal_ledger_project.Strategies.Builder.{positive_themes}

-- A selection from a list by one Boolean for each element.
abbrev pick : {A : Type 0} → List Bool → List A → List A
pick [] xs = []
pick (b ∷ bs) [] = []
pick (b ∷ bs) (x ∷ xs) = if b then x ∷ pick bs xs else pick bs xs

keep-pick : {A : Type 0} (p : A → Bool) (xs : List A) → keep p xs ≡ pick (map p xs) xs
unfolding keep
keep-pick p [] = refl
keep-pick p (x ∷ xs) = rw (keep-pick p xs) refl

-- A test that holds at both values holds.
every : (Bool → Bool) → Bool
every f = f true && f false

every-at : (f : Bool → Bool) (b : Bool) → every f ≡ true → f b ≡ true
unfolding every
every-at f true h = ground arith
every-at f false h = ground arith

abbrev pub macro_name : List MacroTheme → String
macro_name themes = append "Macro theme draft: " (join (map (λ theme. theme.name) themes) ", ")

abbrev is_none : {A : Type 0} → Option A → Bool
is_none none = true
is_none (some _) = false

-- Whether a draft for these themes has a name of an accepted length and accepted symbols.
pub fits : List MacroTheme → Bool
unfolding trim_space join check_symbols symbols_of
fits themes =
    leb 3 (len (trim_space (macro_name themes)))
    && leb (len (trim_space (macro_name themes))) 120
    && is_none (check_symbols (symbols_of themes))

-- It does for each of the 32 selections of themes.
fits-pick : (a b c d e : Bool) → fits (pick (a ∷ b ∷ c ∷ d ∷ e ∷ []) macro_themes) ≡ true
unfolding every fits join trim_space matches_symbol all_chars
fits-pick a b c d e =
    let at : Bool → Bool → Bool → Bool → Bool → Bool =
      (λ v w x y z. fits (pick (v ∷ w ∷ x ∷ y ∷ z ∷ []) macro_themes)) in
    every-at (λ z. at a b c d z) e
      (every-at (λ y. every (λ z. at a b c y z)) d
        (every-at (λ x. every (λ y. every (λ z. at a b x y z))) c
          (every-at (λ w. every (λ x. every (λ y. every (λ z. at a w x y z)))) b
            (every-at (λ v. every (λ w. every (λ x. every (λ y. every (λ z. at v w x y z))))) a
              refl))))

is_none-none : {A : Type 0} (o : Option A) → is_none o ≡ true → o ≡ none
is_none-none none h = refl
is_none-none (some a) h = cc

pub fits_iff :
    (themes : List MacroTheme)
    → fits themes ≡ true
    → (3 ≤ len (trim_space (macro_name themes)))
      × (len (trim_space (macro_name themes)) ≤ 120)
      × All (λ symbol. matches_symbol symbol ≡ true) (symbols_of themes)
unfolding fits
fits_iff themes h =
    let k : (3 ≤ len (trim_space (macro_name themes)))
        × (len (trim_space (macro_name themes)) ≤ 120)
        × (is_none (check_symbols (symbols_of themes)) ≡ true) =
      ground arith in
    (k.0, k.1, (check_symbols_iff (symbols_of themes)).0 (is_none-none _ k.2))

module _ {F : Type 0} (fl : Float F) where
  pub positive_themes-fits :
      (claims : List (StoredClaim F)) → fits (positive_themes fl claims) ≡ true
  unfolding positive_themes
  positive_themes-fits claims = rw keep-pick (fits-pick _ _ _ _ _)
