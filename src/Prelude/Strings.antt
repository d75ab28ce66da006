-- ===== src/Prelude/Strings.antt =====
-- The functions of Go's `strings` package that the code calls, on the characters of a text.
use Prim.Native.Nat.{ℕ, zero, suc}
use Prim.Native.Char.{Char, code}
use Prim.Native.String.{String, ◌++◌}
use mathlib.Core.Path.{◌≡◌, refl}
use mathlib.Core.Bool.{Bool, true, ◌||◌, ◌&&◌}
use mathlib.Core.List.{List, [], ◌∷◌}
use text.Mathlib.Text.{◌==◌, starts_with}
use signal_ledger_project.Prelude.Tests.{if◌then◌else◌, leb, eqb}

-- `unicode.IsSpace`.
unfoldable pub is_space : ℕ → Bool
is_space c =
    (leb 9 c && leb c 13)
    || eqb c 32
    || eqb c 0x85
    || eqb c 0xa0
    || eqb c 0x1680
    || (leb 0x2000 c && leb c 0x200a)
    || eqb c 0x2028
    || eqb c 0x2029
    || eqb c 0x202f
    || eqb c 0x205f
    || eqb c 0x3000

-- What is left of a text without the leading, and without the trailing, characters that pass a test.
unfoldable pub trim_left : (ℕ → Bool) → String → String
trim_left p String.[] = String.[]
trim_left p (String.◌∷◌ c s) = if p (code c) then trim_left p s else String.◌∷◌ c s

-- A character in front of a trimmed rest: dropped if nothing follows.
unfoldable pub trim_cons : (ℕ → Bool) → Char → String → String
trim_cons p c String.[] = if p (code c) then String.[] else String.◌∷◌ c String.[]
trim_cons p c (String.◌∷◌ d s) = String.◌∷◌ c (String.◌∷◌ d s)

unfoldable pub trim_right : (ℕ → Bool) → String → String
unfolding trim_cons
trim_right p String.[] = String.[]
trim_right p (String.◌∷◌ c s) = trim_cons p c (trim_right p s)

-- `strings.TrimSpace`.
unfoldable pub trim_space : String → String
unfolding trim_left trim_right is_space
trim_space s = trim_right is_space (trim_left is_space s)

-- A character of the first text is replaced by the one that stands in its place in the second.
unfoldable pub translate : String → String → Char → Char
translate (String.◌∷◌ a from) (String.◌∷◌ b to) c =
    if eqb (code a) (code c) then b else translate from to c
translate _ _ c = c

unfoldable pub map_chars : (Char → Char) → String → String
map_chars f String.[] = String.[]
map_chars f (String.◌∷◌ c s) = String.◌∷◌ (f c) (map_chars f s)

-- `unicode.ToLower`, where the result is ASCII: A to Z, and the two letters outside ASCII whose
-- lower case is in it. The code looks at nothing but ASCII in a lowered text.
unfoldable pub lower_char : Char → Char
unfolding translate
lower_char = translate "ABCDEFGHIJKLMNOPQRSTUVWXYZİK" "abcdefghijklmnopqrstuvwxyzik"

-- `strings.ToLower`.
unfoldable pub to_lower : String → String
unfolding map_chars lower_char
to_lower = map_chars lower_char

-- `strings.Contains`.
unfoldable pub has_substring : String → String → Bool
has_substring String.[] t = t == ""
has_substring (String.◌∷◌ c s) t = starts_with (String.◌∷◌ c s) t || has_substring s t

-- `strings.Join`.
unfoldable pub join : List String → String → String
join [] sep = ""
join (x ∷ []) sep = x
join (x ∷ y ∷ ys) sep = x ++ (sep ++ join (y ∷ ys) sep)

-- Every character passes a test.
unfoldable pub all_chars : (ℕ → Bool) → String → Bool
all_chars p String.[] = true
all_chars p (String.◌∷◌ c s) = p (code c) && all_chars p s

-- The number of characters.
abbrev pub char_count : String → ℕ
char_count String.[] = 0
char_count (String.◌∷◌ c s) = suc (char_count s)

-- The first characters.
unfoldable pub take_chars : ℕ → String → String
take_chars zero s = ""
take_chars (suc n) String.[] = ""
take_chars (suc n) (String.◌∷◌ c s) = String.◌∷◌ c (take_chars n s)

trim_test : trim_space " a b \n" ≡ "a b"
unfolding trim_space
trim_test = refl

lower_test : to_lower "S&P İK" ≡ "s&p ik"
unfolding to_lower
lower_test = refl

substring_test : has_substring "the fed cut" "fed" ≡ true
unfolding has_substring
substring_test = refl
