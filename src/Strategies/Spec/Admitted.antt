-- ===== src/Strategies/Spec/Admitted.antt =====
-- The specs that `Spec.Validate` accepts, written out.
use Prim.Native.Char.{code}
use Prim.Native.String.{len}
use signal_ledger_project.Prelude.{
  ℕ, ◌≤◌, String, ◌≡◌, ◌≢◌, refl, true, false, ◌⊎◌, ◌↔◌, none, [], ◌∷◌, arith, eq_iff, In, All,
  All-of_In, All-In,
}
use signal_ledger_project.Prelude.Int.{pos, ◌≤ℤ◌}
use signal_ledger_project.Prelude.Float.{Float}
use signal_ledger_project.Prelude.Strings.{all_chars, char_count, trim_space}
use signal_ledger_project.Strategies.Spec.{
  Spec, Filter, Value, number, integer, text, boolean, other, is_slug_char, is_symbol_char,
  matches_slug, matches_symbol, valid_template, allowed_value, validate,
}
use signal_ledger_project.Strategies.Spec.Valid.{InRange, IsValid, validate-none}

-- Every character's code is one of these.
abbrev pub AllCodes : (ℕ → Type 0) → String → Type 0
AllCodes P String.[] = Unit
AllCodes P (String.◌∷◌ c s) = P (code c) × AllCodes P s

abbrev pub IsLower : ℕ → Type 0
IsLower c = (97 ≤ c) × (c ≤ 122)

abbrev pub IsDigit : ℕ → Type 0
IsDigit c = (48 ≤ c) × (c ≤ 57)

abbrev pub IsUpper : ℕ → Type 0
IsUpper c = (65 ≤ c) × (c ≤ 90)

-- A small letter, and 2 to 63 small letters, digits and hyphens.
abbrev pub IsSlug : String → Type 0
IsSlug String.[] = ⊥
IsSlug (String.◌∷◌ c s) =
    IsLower (code c)
    × AllCodes (λ d. IsLower d ⊎ IsDigit d ⊎ (d ≡ 45)) s
    × (2 ≤ char_count s)
    × (char_count s ≤ 63)

-- 1 to 10 capital letters and dots.
abbrev pub IsSymbol : String → Type 0
IsSymbol s = AllCodes (λ d. IsUpper d ⊎ (d ≡ 46)) s × (1 ≤ char_count s) × (char_count s ≤ 10)

slug_codes_iff :
    (s : String)
    → (all_chars is_slug_char s ≡ true) ↔ AllCodes (λ d. IsLower d ⊎ IsDigit d ⊎ (d ≡ 45)) s
unfolding all_chars is_slug_char
slug_codes_iff String.[] = (λ h. tt, λ h. refl)
slug_codes_iff (String.◌∷◌ c s) = ground (arith, slug_codes_iff s)

matches_slug_iff : (s : String) → (matches_slug s ≡ true) ↔ IsSlug s
unfolding matches_slug
matches_slug_iff String.[] = (λ h. cc, λ h. absurd h)
matches_slug_iff (String.◌∷◌ c s) = ground (arith, slug_codes_iff s)

symbol_codes_iff :
    (s : String) → (all_chars is_symbol_char s ≡ true) ↔ AllCodes (λ d. IsUpper d ⊎ (d ≡ 46)) s
unfolding all_chars is_symbol_char
symbol_codes_iff String.[] = (λ h. tt, λ h. refl)
symbol_codes_iff (String.◌∷◌ c s) = ground (arith, symbol_codes_iff s)

matches_symbol_iff : (s : String) → (matches_symbol s ≡ true) ↔ IsSymbol s
unfolding matches_symbol
matches_symbol_iff s = ground (arith, symbol_codes_iff s)

abbrev pub IsTemplate : String → Type 0
IsTemplate t = (t ≡ "research-supported-momentum") ⊎ (t ≡ "quality-trend") ⊎ (t ≡ "macro-theme-etf")

valid_template_iff : (t : String) → (valid_template t ≡ true) ↔ IsTemplate t
unfolding valid_template
valid_template_iff t = ground (
  arith,
  eq_iff t "research-supported-momentum",
  eq_iff t "quality-trend",
  eq_iff t "macro-theme-etf",
)

module _ {F : Type 0} where
  -- A number, a text or a truth value.
  abbrev pub IsScalar : Value F → Type 0
  IsScalar (number _) = Unit
  IsScalar (integer _) = Unit
  IsScalar (text _) = Unit
  IsScalar (boolean _) = Unit
  IsScalar other = ⊥

  allowed_value_iff : (v : Value F) → (allowed_value v ≡ true) ↔ IsScalar v
  unfolding allowed_value
  allowed_value_iff (number _) = (λ h. tt, λ h. refl)
  allowed_value_iff (integer _) = (λ h. tt, λ h. refl)
  allowed_value_iff (text _) = (λ h. tt, λ h. refl)
  allowed_value_iff (boolean _) = (λ h. tt, λ h. refl)
  allowed_value_iff other = (λ h. cc, λ h. absurd h)

  -- A filter on a knob of the engine, with a comparison and a scalar.
  abbrev pub IsFilter : Filter F → Type 0
  IsFilter filter =
      In filter.field (
        "lookback_months" ∷ "top_n" ∷ "momentum" ∷ "claim_confidence" ∷ "claim_signal_weight"
        ∷ "claim_horizon_days" ∷ "require_claim_support" ∷ "execution_lag_days" ∷ "cash_policy"
        ∷ "risk_free_rate" ∷ "benchmark_symbol" ∷ [])
      × In filter.operator ("gt" ∷ "gte" ∷ "lt" ∷ "lte" ∷ "eq" ∷ [])
      × IsScalar filter.value

module _ {F : Type 0} (fl : Float F) where
  -- What Validate requires of a spec. The length of the name is that of the name without the spaces
  -- around it.
  pub record IsAdmitted (spec : Spec F) : Type 0 where
    pub slug : IsSlug spec.slug
    pub version : pos 1 ≤ℤ spec.version
    pub name : (3 ≤ len (trim_space spec.name)) × (len (trim_space spec.name) ≤ 120)
    pub universe_name : trim_space spec.universe.name ≢ ""
    pub asset_class : (spec.universe.asset_class ≡ "equity") ⊎ (spec.universe.asset_class ≡ "etf")
    pub listed : spec.universe.symbols ≢ []
    pub symbols : All IsSymbol spec.universe.symbols
    pub template : IsTemplate spec.selection.template
    pub filters : All IsFilter spec.selection.filters
    pub schedule : In spec.rebalance.schedule ("weekly" ∷ "monthly" ∷ "quarterly" ∷ [])
    pub weight :
        (fl.le spec.risk.max_position_weight (fl.lit 0 0) ≡ false)
        × (fl.lt (fl.lit 1 0) spec.risk.max_position_weight ≡ false)
    pub cost :
        (fl.lt spec.risk.transaction_cost_bps (fl.lit 0 0) ≡ false)
        × (fl.lt (fl.lit 1000 0) spec.risk.transaction_cost_bps ≡ false)
    pub stop : InRange fl spec.risk.stop_loss_pct

  IsValid-IsAdmitted : (spec : Spec F) → IsValid fl spec → IsAdmitted spec
  IsValid-IsAdmitted spec v = record {
    slug = (matches_slug_iff spec.slug).0 v.slug_matches;
    version = v.version_positive;
    name = v.name_length;
    universe_name = v.universe_named;
    asset_class = v.asset_class;
    listed = v.symbols_listed;
    symbols = All-of_In IsSymbol _ (λ s h.
        (matches_symbol_iff s).0 (All-In (λ z. matches_symbol z ≡ true) s _ v.symbols_match h));
    template = (valid_template_iff spec.selection.template).0 v.template_known;
    filters = All-of_In IsFilter _ (λ f h.
        let k = All-In _ f _ v.filters_known h in (k.0, k.1, (allowed_value_iff f.value).0 k.2));
    schedule = v.schedule_known;
    weight = v.weight_range;
    cost = v.cost_range;
    stop = v.stop_range;
  }

  IsAdmitted-IsValid : (spec : Spec F) → IsAdmitted spec → IsValid fl spec
  IsAdmitted-IsValid spec a = record {
    slug_matches = (matches_slug_iff spec.slug).1 a.slug;
    version_positive = a.version;
    name_length = a.name;
    universe_named = a.universe_name;
    asset_class = a.asset_class;
    symbols_listed = a.listed;
    symbols_match =
        All-of_In (λ z. matches_symbol z ≡ true) _
          (λ s h. (matches_symbol_iff s).1 (All-In IsSymbol s _ a.symbols h));
    template_known = (valid_template_iff spec.selection.template).1 a.template;
    filters_known = All-of_In _ _ (λ f h.
        let k = All-In IsFilter f _ a.filters h in (k.0, k.1, (allowed_value_iff f.value).1 k.2));
    schedule_known = a.schedule;
    weight_range = a.weight;
    cost_range = a.cost;
    stop_range = a.stop;
  }

  -- Validate accepts a spec exactly if it has a slug of 3 to 64 small letters, digits and hyphens that
  -- starts with a letter; a positive version; a name of 3 to 120 bytes without the spaces around it; a
  -- universe with a name, of equities or ETFs, and with at least one symbol, each of 1 to 10 capital
  -- letters and dots; one of the three templates; filters on knobs of the engine, with one of the five
  -- comparisons and a number, text or truth value; one of the three schedules; a position weight in
  -- (0, 1], costs in [0, 1000], and a stop loss, if any, in (0, 1].
  pub validate-IsAdmitted : (spec : Spec F) → (validate fl spec ≡ none) ↔ IsAdmitted spec
  validate-IsAdmitted spec = (
    λ h. IsValid-IsAdmitted spec ((validate-none fl spec).0 h),
    λ a. (validate-none fl spec).1 (IsAdmitted-IsValid spec a),
  )
