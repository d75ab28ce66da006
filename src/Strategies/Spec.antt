-- ===== src/Strategies/Spec.antt =====
-- internal/strategies/spec.go: the strategy spec and `Spec.Validate`.
pub mod Valid
pub mod Admitted
use Prim.Native.Char.{code}
use Prim.Native.String.{len}
use signal_ledger_project.Prelude.{
  ℕ, suc, String, ◌≡◌, refl, Bool, true, false, ◌||◌, ◌&&◌, not, Option, none, some, List, [], ◌∷◌,
  ◌==◌, ltb, leb, eqb, contains, if◌then◌else◌,
}
use signal_ledger_project.Prelude.Int.{ℤ, pos, ltb_ℤ}
use signal_ledger_project.Prelude.Float.{Float}
use signal_ledger_project.Prelude.Strings.{trim_space, all_chars, char_count}

pub record Universe : Type 0 where
  pub name : String
  pub asset_class : String
  pub symbols : List String

-- The `any` of a filter, by the types that its switch tells apart.
pub data Value (F : Type 0) : Type 0 where
  number : F → Value F
  integer : ℤ → Value F
  text : String → Value F
  boolean : Bool → Value F
  other : Value F

pub record Filter (F : Type 0) : Type 0 where
  pub field : String
  pub operator : String
  pub value : Value F

pub record Selection (F : Type 0) : Type 0 where
  pub template : String
  pub filters : List (Filter F)

pub record Rebalance : Type 0 where
  pub schedule : String

pub record Risk (F : Type 0) : Type 0 where
  pub max_position_weight : F
  pub transaction_cost_bps : F
  pub stop_loss_pct : Option F

pub record Spec (F : Type 0) : Type 0 where
  pub slug : String
  pub version : ℤ
  pub name : String
  pub universe : Universe
  pub selection : Selection F
  pub rebalance : Rebalance
  pub risk : Risk F

unfoldable pub is_slug_char : ℕ → Bool
is_slug_char c = (leb b'a' c && leb c b'z') || (leb b'0' c && leb c b'9') || eqb c b'-'

-- slugPattern, ^[a-z][a-z0-9-]{2,63}$
unfoldable pub matches_slug : String → Bool
unfolding is_slug_char
matches_slug String.[] = false
matches_slug (String.◌∷◌ c s) =
    (leb b'a' (code c) && leb (code c) b'z')
    && all_chars is_slug_char s
    && (leb 2 (char_count s) && leb (char_count s) 63)

unfoldable pub is_symbol_char : ℕ → Bool
is_symbol_char c = (leb b'A' c && leb c b'Z') || eqb c b'.'

-- symbolPattern, ^[A-Z.]{1,10}$
unfoldable pub matches_symbol : String → Bool
unfolding is_symbol_char
matches_symbol s = all_chars is_symbol_char s && (leb 1 (char_count s) && leb (char_count s) 10)

unfoldable pub valid_template : String → Bool
valid_template template =
    template == "research-supported-momentum"
    || template == "quality-trend"
    || template == "macro-theme-etf"

abbrev pub filter_fields : List String
filter_fields =
    "lookback_months" ∷ "top_n" ∷ "momentum" ∷ "claim_confidence" ∷ "claim_signal_weight"
    ∷ "claim_horizon_days" ∷ "require_claim_support" ∷ "execution_lag_days" ∷ "cash_policy"
    ∷ "risk_free_rate" ∷ "benchmark_symbol" ∷ []

abbrev pub operators : List String
operators = "gt" ∷ "gte" ∷ "lt" ∷ "lte" ∷ "eq" ∷ []

abbrev pub schedules : List String
schedules = "weekly" ∷ "monthly" ∷ "quarterly" ∷ []

-- The errors of `Spec.Validate`, one for each message, with what the message prints.
pub data SpecError : Type 0 where
  bad_slug bad_version bad_name no_universe_name bad_asset_class no_symbols : SpecError
  bad_symbol bad_template : String → SpecError
  unknown_field bad_operator : ℕ → String → SpecError
  bad_value : ℕ → SpecError
  bad_schedule bad_weight bad_cost bad_stop_loss : SpecError

unfoldable pub check_symbols : List String → Option SpecError
check_symbols [] = none
check_symbols (symbol ∷ symbols) =
    let rest = check_symbols symbols in
    if not (matches_symbol symbol) then some (bad_symbol symbol) else rest

module _ {F : Type 0} where
  unfoldable pub allowed_value : Value F → Bool
  allowed_value other = false
  allowed_value (number _) = true
  allowed_value (integer _) = true
  allowed_value (text _) = true
  allowed_value (boolean _) = true

  unfoldable pub check_filters : ℕ → List (Filter F) → Option SpecError
  check_filters index [] = none
  check_filters index (filter ∷ filters) =
      let rest = check_filters (suc index) filters in
      if not (contains filter_fields filter.field)
      then some (unknown_field index filter.field)
      else if not (contains operators filter.operator)
      then some (bad_operator index filter.operator)
      else if not (allowed_value filter.value)
      then some (bad_value index)
      else rest

module _ {F : Type 0} (fl : Float F) where
  unfoldable pub bad_stop : Option F → Bool
  bad_stop none = false
  bad_stop (some pct) = fl.le pct (fl.lit 0 0) || fl.lt (fl.lit 1 0) pct

  -- The checks from the rebalance schedule on.
  unfoldable pub check_risk : Spec F → Option SpecError
  check_risk spec =
      if not (contains schedules spec.rebalance.schedule)
      then some bad_schedule
      else if fl.le spec.risk.max_position_weight (fl.lit 0 0)
          || fl.lt (fl.lit 1 0) spec.risk.max_position_weight
      then some bad_weight
      else if fl.lt spec.risk.transaction_cost_bps (fl.lit 0 0)
          || fl.lt (fl.lit 1000 0) spec.risk.transaction_cost_bps
      then some bad_cost
      else if bad_stop spec.risk.stop_loss_pct
      then some bad_stop_loss
      else none

  -- The checks of the selection, and those after it.
  unfoldable pub check_selection : Spec F → Option SpecError
  check_selection spec =
      if not (valid_template spec.selection.template)
      then some (bad_template spec.selection.template)
      else elim (check_filters 0 spec.selection.filters) [
        | some error ↦ some error
        | none ↦ check_risk spec
      ]

  -- The checks of the universe, and those after it.
  unfoldable pub check_universe : Spec F → Option SpecError
  check_universe spec =
      if trim_space spec.universe.name == ""
      then some no_universe_name
      else if not (spec.universe.asset_class == "equity" || spec.universe.asset_class == "etf")
      then some bad_asset_class
      else elim spec.universe.symbols [
        | [] ↦ some no_symbols
        | symbol ∷ symbols ↦ elim (check_symbols (symbol ∷ symbols)) [
          | some error ↦ some error
          | none ↦ check_selection spec
        ]
      ]

  -- Spec.Validate: `none` is the nil error. `len` counts bytes, as Go's does.
  unfoldable pub validate : Spec F → Option SpecError
  validate spec =
      let length = len (trim_space spec.name) in
      if not (matches_slug spec.slug)
      then some bad_slug
      else if ltb_ℤ spec.version (pos 1)
      then some bad_version
      else if ltb length 3 || ltb 120 length
      then some bad_name
      else check_universe spec
