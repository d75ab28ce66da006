-- ===== src/Strategies/Signals.antt =====
-- `BuildSignals` of internal/strategies/signals.go: the accepted claims of a strategy, projected
-- onto its universe for one run. A Go map that is used as a set is the list of its keys.
pub mod Collecting
pub mod Visiting
pub mod Payload
use signal_ledger_project.Prelude.{
  String, ◌≡◌, refl, Bool, true, false, ◌||◌, ◌&&◌, not, Option, none, some, List, [], ◌∷◌, ◌++◌,
  ◌==◌, contains, if◌then◌else◌,
}
use signal_ledger_project.Prelude.Int.{ltb_ℤ, eqb_ℤ}
use signal_ledger_project.Prelude.Text.{str_lt}
use signal_ledger_project.Prelude.Sorting.{Sorter}
use signal_ledger_project.Domain.Research.{Time, StoredClaim}
use signal_ledger_project.Domain.Backtest.{ClaimSignal}
use signal_ledger_project.Strategies.Themes.{claim_symbols}

abbrev pub Key : Type 0
Key = String × String

unfoldable pub same_key : Key → Key → Bool
same_key (a, s) (b, t) = a == b && s == t

unfoldable pub has_key : List Key → Key → Bool
unfolding same_key
has_key [] k = false
has_key (x ∷ xs) k = same_key k x || has_key xs k

-- The variables of the loops: `seen` and `signals`.
pub record Collected (F : Type 0) : Type 0 where
  pub seen : List Key
  pub signals : List (ClaimSignal F)

module _ {F : Type 0} where
  abbrev pub signal_of : StoredClaim F → String → ClaimSignal F
  signal_of claim symbol = record {
    claim_id = claim.id;
    symbol = symbol;
    direction = claim.direction;
    confidence = claim.confidence;
    effective_at = claim.effective_at;
    horizon_days = claim.horizon_days;
  }

  abbrev pub key_of : ClaimSignal F → Key
  key_of signal = (signal.claim_id, signal.symbol)

  -- The two `continue`s of the loop over the claims.
  unfoldable pub skipped : Time → StoredClaim F → Bool
  skipped cutoff claim =
      (not (claim.validation_status == "accepted") || claim.direction == "neutral")
      || ltb_ℤ cutoff claim.effective_at

  -- The body of the loop over the symbols of a claim.
  unfoldable pub add_symbol : List String → StoredClaim F → Collected F → String → Collected F
  add_symbol tradable claim acc symbol =
      if not (contains tradable symbol)
      then acc
      else if has_key acc.seen (claim.id, symbol)
      then acc
      else record {
        seen = (claim.id, symbol) ∷ acc.seen;
        signals = acc.signals ++ signal_of claim symbol ∷ [];
      }

  unfoldable pub add_symbols : List String → StoredClaim F → Collected F → List String → Collected F
  add_symbols tradable claim acc [] = acc
  add_symbols tradable claim acc (symbol ∷ symbols) =
      add_symbols tradable claim (add_symbol tradable claim acc symbol) symbols

  unfoldable pub add_claims : List String → Time → Collected F → List (StoredClaim F) → Collected F
  add_claims tradable cutoff acc [] = acc
  add_claims tradable cutoff acc (claim ∷ claims) =
      add_claims tradable cutoff
        (if skipped cutoff claim then acc else add_symbols tradable claim acc (claim_symbols claim))
        claims

  -- The order of the payload.
  unfoldable pub before : ClaimSignal F → ClaimSignal F → Bool
  before left right =
      if not (left.symbol == right.symbol)
      then str_lt left.symbol right.symbol
      else if not (eqb_ℤ left.effective_at right.effective_at)
      then ltb_ℤ left.effective_at right.effective_at
      else str_lt left.claim_id right.claim_id

  unfoldable pub collect : List (StoredClaim F) → List String → Time → List (ClaimSignal F)
  collect claims universe cutoff =
      (add_claims universe cutoff (record { seen = []; signals = [] }) claims).signals

  unfoldable pub build_signals :
      Sorter (ClaimSignal F) → List (StoredClaim F) → List String → Time → List (ClaimSignal F)
  unfolding collect
  build_signals sorter claims universe cutoff = sorter.sort before (collect claims universe cutoff)
