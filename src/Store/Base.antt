-- ===== src/Store/Base.antt =====
-- Errors and transactions. A transaction that fails is rolled back, so it has no new state.
use signal_ledger_project.Prelude.{Bool, true, false, ◌≡◌, refl, Option, none, some}

-- The errors that callers tell apart, those of the operations' own checks, and those of the
-- database and of the other parts that the code calls.
pub data Error : Type 0 where
  not_found claim_not_citable : Error
  not_leased not_in_progress : Error
  invalid_status invalid_input : Error
  violated_constraint : Error
  unavailable : Error
  undecodable : Error
  unsupported_job not_configured not_ready unauthorized_symbols : Error
  nothing_cited claim_missing empty_draft invalid_spec : Error
  too_large not_a_pdf invalid_request no_bars : Error
  bad_status invalid_response : Error

-- What an operation returns.
pub data Result {ℓ} (A : Type ℓ) : Type ℓ where
  ok : A → Result A
  err : Error → Result A

-- A row that must be there, or a text that must decode.
abbrev pub some_or {ℓ} : {A : Type ℓ} → Option A → Error → Result A
some_or (some a) missing = ok a
some_or none missing = err missing

-- A condition without which the operation stops.
abbrev pub require : Bool → Error → Result (Unit {0})
require holds refusal = elim holds [ true ↦ ok tt | false ↦ err refusal ]

infixl 5 ◌>>=◌ ◌>>◌
abbrev pub ◌>>=◌ {ℓ κ} : {A : Type ℓ} {B : Type κ} → Result A → (A → Result B) → Result B
err refusal >>= next = err refusal
ok a >>= next = next a

abbrev pub ◌>>◌ {κ} : {B : Type κ} → Result (Unit {0}) → Result B → Result B
first >> second = first >>= λ done. second

-- What a chain that succeeds has gone through.
pub ok-injective {ℓ} : {A : Type ℓ} (a b : A) → ok a ≡ ok b → a ≡ b
ok-injective a b h = cc

pub bind-ok {ℓ κ} :
    {A : Type ℓ} {B : Type κ} (m : Result A) (f : A → Result B) (b : B)
    → (m >>= f) ≡ ok b
    → (a : A) × (m ≡ ok a) × (f a ≡ ok b)
bind-ok (ok a) f b h = (a, refl, h)
bind-ok (err e) f b h = cc

pub require-ok {ℓ} :
    {B : Type ℓ} (t : Bool) (e : Error) (m : Result B) (b : B)
    → (require t e >> m) ≡ ok b
    → (t ≡ true) × (m ≡ ok b)
require-ok true e m b h = (refl, h)
require-ok false e m b h = cc

pub some_or-ok {ℓ} :
    {A : Type ℓ} (o : Option A) (e : Error) (a : A) → some_or o e ≡ ok a → o ≡ some a
some_or-ok none e a h = cc
some_or-ok (some x) e a h = cc
