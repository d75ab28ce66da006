-- ===== src/Strategies/Spec/Valid.antt =====
-- `Spec.Validate` against a description of the specs that it accepts.
use Prim.Native.String.{len}
use signal_ledger_project.Prelude.{
  ℕ, suc, ◌≤◌, String, ◌≡◌, ◌≢◌, refl, true, false, ◌⊎◌, ◌↔◌, Option, none, some, List, [], ◌∷◌,
  arith, eq_iff, In, All, contains_iff,
}
use signal_ledger_project.Prelude.Int.{pos, ◌≤ℤ◌}
use signal_ledger_project.Prelude.Float.{Float}
use signal_ledger_project.Prelude.Strings.{trim_space}
use signal_ledger_project.Strategies.Spec.{
  Spec, Filter, matches_slug, matches_symbol, valid_template, filter_fields, operators, schedules,
  check_symbols, allowed_value, check_filters, bad_stop, check_risk, check_selection,
  check_universe, validate,
}

module _ {F : Type 0} (fl : Float F) where
  abbrev pub InRange : Option F → Type 0
  InRange none = Unit
  InRange (some pct) = (fl.le pct (fl.lit 0 0) ≡ false) × (fl.lt (fl.lit 1 0) pct ≡ false)

  -- A spec that passes each of the checks, in the terms of the code.
  pub record IsValid (spec : Spec F) : Type 0 where
    pub slug_matches : matches_slug spec.slug ≡ true
    pub version_positive : pos 1 ≤ℤ spec.version
    pub name_length : (3 ≤ len (trim_space spec.name)) × (len (trim_space spec.name) ≤ 120)
    pub universe_named : trim_space spec.universe.name ≢ ""
    pub asset_class : (spec.universe.asset_class ≡ "equity") ⊎ (spec.universe.asset_class ≡ "etf")
    pub symbols_listed : spec.universe.symbols ≢ []
    pub symbols_match : All (λ symbol. matches_symbol symbol ≡ true) spec.universe.symbols
    pub template_known : valid_template spec.selection.template ≡ true
    pub filters_known :
        All
          (λ filter.
            In filter.field filter_fields
            × In filter.operator operators
            × (allowed_value filter.value ≡ true))
          spec.selection.filters
    pub schedule_known : In spec.rebalance.schedule schedules
    pub weight_range :
        (fl.le spec.risk.max_position_weight (fl.lit 0 0) ≡ false)
        × (fl.lt (fl.lit 1 0) spec.risk.max_position_weight ≡ false)
    pub cost_range :
        (fl.lt spec.risk.transaction_cost_bps (fl.lit 0 0) ≡ false)
        × (fl.lt (fl.lit 1000 0) spec.risk.transaction_cost_bps ≡ false)
    pub stop_range : InRange spec.risk.stop_loss_pct

pub check_symbols_iff :
    (symbols : List String)
    → (check_symbols symbols ≡ none) ↔ All (λ symbol. matches_symbol symbol ≡ true) symbols
unfolding check_symbols
check_symbols_iff [] = (λ h. tt, λ h. refl)
check_symbols_iff (symbol ∷ symbols) = ground (arith, check_symbols_iff symbols)

module _ {F : Type 0} where
  abbrev pub FilterKnown : Filter F → Type 0
  FilterKnown filter =
      In filter.field filter_fields
      × In filter.operator operators
      × (allowed_value filter.value ≡ true)

  check_filters_iff :
      (index : ℕ) (filters : List (Filter F))
      → (check_filters index filters ≡ none) ↔ All FilterKnown filters
  unfolding check_filters
  check_filters_iff index [] = (λ h. tt, λ h. refl)
  check_filters_iff index (filter ∷ filters) = ground (
    arith,
    check_filters_iff (suc index) filters,
    contains_iff filter_fields filter.field,
    contains_iff operators filter.operator,
  )

module _ {F : Type 0} (fl : Float F) where
  bad_stop_iff : (stop : Option F) → (bad_stop fl stop ≡ false) ↔ InRange fl stop
  unfolding bad_stop
  bad_stop_iff none = (λ h. tt, λ h. refl)
  bad_stop_iff (some pct) = ground arith

  RiskValid : Spec F → Type 0
  RiskValid spec =
      In spec.rebalance.schedule schedules
      × ((fl.le spec.risk.max_position_weight (fl.lit 0 0) ≡ false)
          × (fl.lt (fl.lit 1 0) spec.risk.max_position_weight ≡ false))
      × ((fl.lt spec.risk.transaction_cost_bps (fl.lit 0 0) ≡ false)
          × (fl.lt (fl.lit 1000 0) spec.risk.transaction_cost_bps ≡ false))
      × InRange fl spec.risk.stop_loss_pct

  check_risk_iff : (spec : Spec F) → (check_risk fl spec ≡ none) ↔ RiskValid spec
  unfolding check_risk RiskValid
  check_risk_iff spec =
      ground (
        arith,
        contains_iff schedules spec.rebalance.schedule,
        bad_stop_iff spec.risk.stop_loss_pct,
      )

  SelectionValid : Spec F → Type 0
  unfolding RiskValid
  SelectionValid spec =
      (valid_template spec.selection.template ≡ true)
      × All FilterKnown spec.selection.filters
      × RiskValid spec

  check_selection_iff : (spec : Spec F) → (check_selection fl spec ≡ none) ↔ SelectionValid spec
  unfolding check_selection SelectionValid
  check_selection_iff spec =
      ground (arith, check_filters_iff 0 spec.selection.filters, check_risk_iff spec)

  UniverseValid : Spec F → Type 0
  unfolding SelectionValid
  UniverseValid spec =
      (trim_space spec.universe.name ≢ "")
      × ((spec.universe.asset_class ≡ "equity") ⊎ (spec.universe.asset_class ≡ "etf"))
      × (spec.universe.symbols ≢ [])
      × All (λ symbol. matches_symbol symbol ≡ true) spec.universe.symbols
      × SelectionValid spec

  check_universe_iff : (spec : Spec F) → (check_universe fl spec ≡ none) ↔ UniverseValid spec
  unfolding check_universe UniverseValid
  check_universe_iff spec = ground (
    arith,
    eq_iff (trim_space spec.universe.name) "",
    eq_iff spec.universe.asset_class "equity",
    eq_iff spec.universe.asset_class "etf",
    check_symbols_iff spec.universe.symbols,
    check_selection_iff spec,
  )

  validate_parts :
      (spec : Spec F)
      → (validate fl spec ≡ none) ↔ (
          (matches_slug spec.slug ≡ true)
          × (pos 1 ≤ℤ spec.version)
          × ((3 ≤ len (trim_space spec.name)) × (len (trim_space spec.name) ≤ 120))
          × UniverseValid spec)
  unfolding validate
  validate_parts spec = ground (arith, check_universe_iff spec)

  -- A spec is accepted exactly when it is valid.
  pub validate-none : (spec : Spec F) → (validate fl spec ≡ none) ↔ IsValid fl spec
  unfolding UniverseValid
  validate-none spec = (
    λ h.
        let (
          slug,
          version,
          name,
          (named, asset, listed, symbols, (template, filters, (schedule, weight, cost, stop))),
        ) =
          (validate_parts spec).0 h in
        record {
          slug_matches = slug;
          version_positive = version;
          name_length = name;
          universe_named = named;
          asset_class = asset;
          symbols_listed = listed;
          symbols_match = symbols;
          template_known = template;
          filters_known = filters;
          schedule_known = schedule;
          weight_range = weight;
          cost_range = cost;
          stop_range = stop;
        },
    λ v. (validate_parts spec).1 (
      v.slug_matches,
      v.version_positive,
      v.name_length,
      (
        v.universe_named,
        v.asset_class,
        v.symbols_listed,
        v.symbols_match,
        (
          v.template_known,
          v.filters_known,
          (v.schedule_known, v.weight_range, v.cost_range, v.stop_range),
        ),
      ),
    ),
  )
