-- ===== src/Strategies/Builder/Slug.antt =====
-- The slug of a draft is one that `Spec.Validate` accepts.
use Prim.Native.Char.{Char, code}
use Prim.Native.String.{◌++◌ as append}
use Prim.Native.String.append.{cons as append_cons}
use signal_ledger_project.Prelude.{
  ℕ, zero, suc, ◌≤◌, String, ◌≡◌, refl, ap, ◌∙◌, Bool, true, false, ◌&&◌, inl, inr, List, arith,
  leb, Bool-cases,
}
use signal_ledger_project.Prelude.Strings.{
  to_lower, map_chars, lower_char, join, take_chars, trim_left, trim_right, trim_cons, all_chars,
  char_count,
}
use signal_ledger_project.Strategies.Spec.{is_slug_char, matches_slug}
use signal_ledger_project.Strategies.Builder.{sanitize, is_hyphen, draft_slug}

module _ (p : ℕ → Bool) where
  all_chars-take_chars :
      (n : ℕ) (s : String) → all_chars p s ≡ true → all_chars p (take_chars n s) ≡ true
  unfolding all_chars take_chars
  all_chars-take_chars zero s h = refl
  all_chars-take_chars (suc n) String.[] h = refl
  all_chars-take_chars (suc n) (String.◌∷◌ c s) h = ground (arith, all_chars-take_chars n s)

  all_chars-trim_cons :
      (q : ℕ → Bool) (c : Char) (s : String)
      → p (code c) ≡ true
      → all_chars p s ≡ true
      → all_chars p (trim_cons q c s) ≡ true
  unfolding all_chars trim_cons
  all_chars-trim_cons q c String.[] h k = elim (Bool-cases (q (code c))) [
    | inl e ↦ rw e refl
    | inr e ↦ rw (e, h) refl
  ]
  all_chars-trim_cons q c (String.◌∷◌ d s) h k = ground arith

  all_chars-trim_right :
      (q : ℕ → Bool) (s : String) → all_chars p s ≡ true → all_chars p (trim_right q s) ≡ true
  unfolding all_chars trim_right
  all_chars-trim_right q String.[] h = refl
  all_chars-trim_right q (String.◌∷◌ c s) h =
      ground (arith, all_chars-trim_right q s, all_chars-trim_cons q c (trim_right q s))

count-trim_cons :
    (q : ℕ → Bool) (c : Char) (s : String) → char_count (trim_cons q c s) ≤ suc (char_count s)
unfolding trim_cons
count-trim_cons q c String.[] = elim (Bool-cases (q (code c))) [
  | inl e ↦ rw e (omega arith)
  | inr e ↦ rw e (omega arith)
]
count-trim_cons q c (String.◌∷◌ d s) = ground arith

count-trim_right : (q : ℕ → Bool) (s : String) → char_count (trim_right q s) ≤ char_count s
unfolding trim_right
count-trim_right q String.[] = ground arith
count-trim_right q (String.◌∷◌ c s) =
    omega (arith, count-trim_right q s, count-trim_cons q c (trim_right q s))

count-take_chars : (n : ℕ) (s : String) → char_count (take_chars n s) ≤ n
unfolding take_chars
count-take_chars zero s = ground arith
count-take_chars (suc n) String.[] = ground arith
count-take_chars (suc n) (String.◌∷◌ c s) = omega (arith, count-take_chars n s)

-- A character that is not trimmed keeps its place.
pub trim_cons-kept :
    (q : ℕ → Bool) (c : Char) (s : String) → q (code c) ≡ false → trim_cons q c s ≡ String.◌∷◌ c s
unfolding trim_cons
trim_cons-kept q c String.[] h = ground arith
trim_cons-kept q c (String.◌∷◌ d s) h = refl

trim_left-kept :
    (q : ℕ → Bool) (c : Char) (s : String)
    → q (code c) ≡ false
    → trim_left q (String.◌∷◌ c s) ≡ String.◌∷◌ c s
unfolding trim_left
trim_left-kept q c s h = rw h refl

sanitize-slug_char : (c : Char) → is_slug_char (code (sanitize c)) ≡ true
unfolding sanitize
sanitize-slug_char c = elim (Bool-cases (is_slug_char (code c))) [
  | inl e ↦ rw (e, e) refl
  | inr e ↦ rw e (unfold is_slug_char in refl)
]

all_chars-sanitize : (s : String) → all_chars is_slug_char (map_chars sanitize s) ≡ true
unfolding all_chars map_chars
all_chars-sanitize String.[] = refl
all_chars-sanitize (String.◌∷◌ c s) = ground (arith, sanitize-slug_char c, all_chars-sanitize s)

-- A text that starts with a letter and two more characters of a slug.
module _ (a b c : Char) (s : String) where
  abbrev start : String
  start = String.◌∷◌ a (String.◌∷◌ b (String.◌∷◌ c s))

  trimmed-start :
      is_hyphen (code a) ≡ false
      → is_hyphen (code b) ≡ false
      → is_hyphen (code c) ≡ false
      → trim_right is_hyphen (trim_left is_hyphen (take_chars 64 start))
        ≡ String.◌∷◌ a (String.◌∷◌ b (String.◌∷◌ c (trim_right is_hyphen (take_chars 61 s))))
  unfolding trim_left trim_right take_chars
  trimmed-start h k l =
      ap (trim_right is_hyphen)
        (trim_left-kept is_hyphen a (String.◌∷◌ b (String.◌∷◌ c (take_chars 61 s))) h)
      ∙ ap (trim_cons is_hyphen a) (
          ap (trim_cons is_hyphen b)
            (trim_cons-kept is_hyphen c (trim_right is_hyphen (take_chars 61 s)) l)
          ∙ trim_cons-kept is_hyphen b _ k)
      ∙ trim_cons-kept is_hyphen a _ h

  -- After sanitising it is a slug, if it starts with a small letter.
  matches-start :
      leb b'a' (code a) && leb (code a) b'z' ≡ true
      → is_hyphen (code b) ≡ false
      → is_hyphen (code c) ≡ false
      → all_chars is_slug_char start ≡ true
      → matches_slug (trim_right is_hyphen (trim_left is_hyphen (take_chars 64 start))) ≡ true
  unfolding matches_slug all_chars
  matches-start h k l all = rw (trimmed-start (ground arith) k l) (
      ground (
        arith,
        all_chars-trim_right is_slug_char is_hyphen (take_chars 61 s),
        all_chars-take_chars is_slug_char 61 s,
        count-trim_right is_hyphen (take_chars 61 s),
        count-take_chars 61 s,
      ))

-- A draft's slug whose prefix starts in this way.
slug-matches :
    (a b c : Char) (rest text : String)
    → text ≡ String.◌∷◌ a (String.◌∷◌ b (String.◌∷◌ c rest))
    → leb b'a' (code (sanitize (lower_char a))) && leb (code (sanitize (lower_char a))) b'z' ≡ true
    → is_hyphen (code (sanitize (lower_char b))) ≡ false
    → is_hyphen (code (sanitize (lower_char c))) ≡ false
    → matches_slug (
        trim_right is_hyphen
          (trim_left is_hyphen (take_chars 64 (map_chars sanitize (to_lower text)))))
      ≡ true
unfolding to_lower map_chars
slug-matches a b c rest text e h k l = rw e (
    matches-start _ _ _ _ h k l
      (all_chars-sanitize (to_lower (String.◌∷◌ a (String.◌∷◌ b (String.◌∷◌ c rest))))))

append-three :
    (a b c : Char) (s t : String)
    → append (String.◌∷◌ a (String.◌∷◌ b (String.◌∷◌ c s))) t
      ≡ String.◌∷◌ a (String.◌∷◌ b (String.◌∷◌ c (append s t)))
append-three a b c s t = rw (append_cons, append_cons, append_cons) refl

-- draftSlug gives a slug that the pattern matches, for both prefixes that the drafts use and
-- whatever the parts are.
pub draft_slug-matches :
    (parts : List String)
    → (matches_slug (draft_slug "research-momentum" parts) ≡ true)
      × (matches_slug (draft_slug "macro" parts) ≡ true)
unfolding draft_slug sanitize is_slug_char lower_char
draft_slug-matches parts = (
  slug-matches "r" "e" "s" _ _
      (append-three "r" "e" "s" "earch-momentum" (append "-" (join parts "-"))) refl refl refl,
  slug-matches "m" "a" "c" _ _ (append-three "m" "a" "c" "ro" (append "-" (join parts "-"))) refl
      refl refl,
)
