-- ===== src/Http.antt =====
-- internal/httpapi: what the handlers share. A response is its status, the methods of the Allow header,
-- and its body before the encoding; the routing by net/http and the request ids are left out.
pub mod Claims
pub mod Reviewed
pub mod Backtests
pub mod Covered
use Prim.Native.Char.{Char, code}
use signal_ledger_project.Prelude.{
  ℕ, zero, suc, ◌+◌, String, Bool, true, false, ◌&&◌, ◌||◌, Option, none, some, ltb, leb, eqb,
  if◌then◌else◌,
}
use signal_ledger_project.Store.Base.{Error, not_found}

pub record Request : Type 0 where
  pub method : String
  pub path : String
  pub body : String

-- The body of an error is its code and its message.
pub data Content (A : Type 0) : Type 0 where
  failure : String → String → Content A
  content : A → Content A

pub record Response (A : Type 0) : Type 0 where
  pub status : ℕ
  pub allow : Option String
  pub body : Content A

-- writeJSON
abbrev pub write_json : {A : Type 0} → ℕ → A → Response A
write_json status body = record { status = status; allow = none; body = content body }

-- writeError
abbrev pub write_error : {A : Type 0} → ℕ → String → String → Response A
write_error status error message = record {
  status = status;
  allow = none;
  body = failure error message;
}

-- methodNotAllowed
abbrev pub method_not_allowed : {A : Type 0} → String → Response A
method_not_allowed allowed = record {
  status = 405;
  allow = some allowed;
  body = failure "method_not_allowed" "method is not allowed";
}

-- `errors.Is` with domain.ErrNotFound.
abbrev pub is_not_found : Error → Bool
is_not_found not_found = true
is_not_found _ = false

-- The bytes of a character in UTF-8.
unfoldable pub char_size : ℕ → ℕ
char_size c = if ltb c 0x80 then 1 else if ltb c 0x800 then 2 else if ltb c 0x10000 then 3 else 4

unfoldable pub byte_count : String → ℕ
byte_count String.[] = 0
byte_count (String.◌∷◌ c s) = char_size (code c) + byte_count s

unfoldable pub is_hex : ℕ → Bool
is_hex c = (leb 48 c && leb c 57) || (leb 97 c && leb c 102) || (leb 65 c && leb c 70)

unfoldable pub is_uuid_char : ℕ → ℕ → Bool
is_uuid_char index c =
    if eqb index 8 || eqb index 13 || eqb index 18 || eqb index 23 then eqb c 45 else is_hex c

-- The loop, from a byte's index on.
unfoldable pub uuid_chars : ℕ → String → Bool
uuid_chars index String.[] = true
uuid_chars index (String.◌∷◌ c s) =
    is_uuid_char index (code c) && uuid_chars (index + char_size (code c)) s

-- validUUID
unfoldable pub valid_uuid : String → Bool
valid_uuid value = eqb (byte_count value) 36 && uuid_chars 0 value

-- What follows a prefix, and `strings.TrimPrefix`.
unfoldable pub after_prefix : String → String → Option String
after_prefix String.[] s = some s
after_prefix (String.◌∷◌ p prefix) String.[] = none
after_prefix (String.◌∷◌ p prefix) (String.◌∷◌ c s) =
    let rest = after_prefix prefix s in if eqb (code p) (code c) then rest else none

abbrev pub or_whole : String → Option String → String
or_whole s none = s
or_whole s (some rest) = rest

unfoldable pub trim_prefix : String → String → String
trim_prefix s prefix = or_whole s (after_prefix prefix s)
