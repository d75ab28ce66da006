-- ===== src/Strategies/Builder.antt =====
-- `BuildDraft` of internal/strategies/builder.go: a reviewable draft spec from accepted claims. Themes
-- has the catalogue of the same file. A Go map from names to numbers is an association list; the code
-- reads it by name, or sorts what it ranges over.
pub mod Maps
pub mod Net
pub mod Slug
pub mod Fitting
pub mod Drafts
use Prim.Native.Char.{Char, code}
use Prim.Native.String.{◌++◌ as append}
use signal_ledger_project.Prelude.{
  ℕ, String, ◌≡◌, refl, Bool, true, false, ◌&&◌, ◌||◌, Option, none, some, List, [], ◌∷◌, ◌++◌, map,
  ◌==◌, leb, eqb, keep, if◌then◌else◌,
}
use signal_ledger_project.Prelude.Int.{pos}
use signal_ledger_project.Prelude.Float.{Float}
use signal_ledger_project.Prelude.Text.{str_lt}
use signal_ledger_project.Prelude.Sorting.{Sorter}
use signal_ledger_project.Prelude.Strings.{
  to_lower, map_chars, join, take_chars, trim_left, trim_right,
}
use signal_ledger_project.Domain.Research.{StoredClaim}
use signal_ledger_project.Strategies.Spec.{
  Spec, Universe, Selection, Filter, number, text, Rebalance, Risk, is_slug_char,
}
use signal_ledger_project.Strategies.Themes.{MacroTheme, macro_themes, claim_themes, symbols_of}

pub record Draft (F : Type 0) : Type 0 where
  pub spec : Spec F
  pub claims : List (StoredClaim F)

pub data DraftError : Type 0 where
  no_accepted no_net_positive : DraftError

pub data DraftResult (F : Type 0) : Type 0 where
  drafted : Draft F → DraftResult F
  not_drafted : DraftError → DraftResult F

-- The function that draftSlug maps over the characters.
abbrev pub hyphen : Char
hyphen = "-"

unfoldable pub sanitize : Char → Char
unfolding is_slug_char
sanitize c = if is_slug_char (code c) then c else hyphen

abbrev pub is_hyphen : ℕ → Bool
is_hyphen c = eqb c b'-'

-- draftSlug. What is sanitised is ASCII, so that its bytes are its characters.
unfoldable pub draft_slug : String → List String → String
draft_slug prefix parts =
    let joined = to_lower (append prefix (append "-" (join parts "-"))) in
    trim_right is_hyphen (trim_left is_hyphen (take_chars 64 (map_chars sanitize joined)))

module _ {F : Type 0} where
  -- `m[key] += x` on a map whose missing entries are zero.
  unfoldable pub add_at : Float F → String → F → List (String × F) → List (String × F)
  add_at fl key x [] = (key, fl.add (fl.lit 0 0) x) ∷ []
  add_at fl key x ((k, y) ∷ rest) =
      if key == k then (k, fl.add y x) ∷ rest else (k, y) ∷ add_at fl key x rest

  -- `m[key]`
  unfoldable pub value_at : Float F → String → List (String × F) → F
  value_at fl key [] = fl.lit 0 0
  value_at fl key ((k, y) ∷ rest) = if key == k then y else value_at fl key rest

module _ {F : Type 0} (fl : Float F) where
  -- signedConfidence
  unfoldable pub signed_confidence : StoredClaim F → F
  signed_confidence claim =
      if claim.direction == "positive"
      then claim.confidence
      else if claim.direction == "negative"
      then fl.neg claim.confidence
      else fl.lit 0 0

  -- One round of the loop of netTickerSymbols.
  abbrev pub add_ticker : Option String → F → List (String × F) → List (String × F)
  add_ticker none x net = net
  add_ticker (some ticker) x net = add_at fl ticker x net

  -- The loop of netTickerSymbols.
  unfoldable pub net_tickers : List (StoredClaim F) → List (String × F) → List (String × F)
  net_tickers [] net = net
  net_tickers (claim ∷ claims) net =
      net_tickers claims (add_ticker claim.ticker (signed_confidence claim) net)

  abbrev pub is_positive : F → Bool
  is_positive x = fl.lt (fl.lit 0 0) x

  -- netTickerSymbols
  unfoldable pub net_ticker_symbols : Sorter String → List (StoredClaim F) → List String
  net_ticker_symbols sorter claims =
      sorter.sort str_lt
        (map (λ entry. entry.0) (keep (λ entry. is_positive entry.1) (net_tickers claims [])))

  -- The inner loop of netMacroThemes.
  unfoldable pub add_themes : List MacroTheme → F → List (String × F) → List (String × F)
  add_themes [] x net = net
  add_themes (theme ∷ themes) x net = add_themes themes x (add_at fl theme.name x net)

  unfoldable pub net_themes : List (StoredClaim F) → List (String × F) → List (String × F)
  net_themes [] net = net
  net_themes (claim ∷ claims) net =
      net_themes claims (add_themes (claim_themes claim) (signed_confidence claim) net)

  unfoldable pub positive_themes : List (StoredClaim F) → List MacroTheme
  positive_themes claims =
      keep (λ theme. is_positive (value_at fl theme.name (net_themes claims []))) macro_themes

  -- netMacroThemes: the names, and the symbols.
  unfoldable pub net_macro_themes : List (StoredClaim F) → List String × List String
  net_macro_themes claims =
      (map (λ theme. theme.name) (positive_themes claims), symbols_of (positive_themes claims))

  -- The loop of defaultFilters.
  unfoldable pub least_confidence : F → List (StoredClaim F) → F
  least_confidence minimum [] = minimum
  least_confidence minimum (claim ∷ claims) =
      least_confidence (if fl.lt claim.confidence minimum then claim.confidence else minimum) claims

  -- defaultFilters
  unfoldable pub default_filters : List (StoredClaim F) → List (Filter F)
  default_filters claims =
      let minimum = least_confidence (fl.lit 1 0) claims in
      record {
        field = "claim_confidence";
        operator = "gte";
        value = number (fl.div (fl.floor (fl.mul minimum (fl.lit 100 0))) (fl.lit 100 0));
      }
      ∷ record { field = "claim_signal_weight"; operator = "eq"; value = number (fl.lit 25 2) }
      ∷ record { field = "cash_policy"; operator = "eq"; value = text "extend" }
      ∷ []

  -- defaultRisk
  abbrev pub default_risk : Risk F
  default_risk = record {
    max_position_weight = fl.lit 2 1;
    transaction_cost_bps = fl.lit 5 0;
    stop_loss_pct = none;
  }

  -- equityDraft
  unfoldable pub equity_draft : List String → List (StoredClaim F) → Draft F
  equity_draft symbols claims = record {
    spec = record {
      slug = draft_slug "research-momentum" symbols;
      version = pos 1;
      name = append "Research draft: " (join symbols ", ");
      universe = record {
        name = "research-cited-equities";
        asset_class = "equity";
        symbols = symbols;
      };
      selection = record {
        template = "research-supported-momentum";
        filters = default_filters claims;
      };
      rebalance = record { schedule = "monthly" };
      risk = default_risk;
    };
    claims = claims;
  }

  -- macroDraft
  unfoldable pub macro_draft : List String → List String → List (StoredClaim F) → Draft F
  macro_draft themes symbols claims = record {
    spec = record {
      slug = draft_slug "macro" themes;
      version = pos 1;
      name = append "Macro theme draft: " (join themes ", ");
      universe = record {
        name = "macro-theme-etf-proxies";
        asset_class = "etf";
        symbols = symbols;
      };
      selection = record { template = "macro-theme-etf"; filters = default_filters claims };
      rebalance = record { schedule = "monthly" };
      risk = default_risk;
    };
    claims = claims;
  }

  abbrev pub is_accepted : StoredClaim F → Bool
  is_accepted claim = claim.validation_status == "accepted"

  -- The last step of BuildDraft, by the symbols of the themes.
  abbrev pub draft_themes : List String → List String → List (StoredClaim F) → DraftResult F
  draft_themes themes [] accepted = not_drafted no_net_positive
  draft_themes themes (symbol ∷ symbols) accepted =
      drafted (macro_draft themes (symbol ∷ symbols) accepted)

  -- By the symbols of the tickers.
  abbrev pub draft_tickers : List String → List (StoredClaim F) → DraftResult F
  draft_tickers [] accepted =
      let net = net_macro_themes accepted in draft_themes net.0 net.1 accepted
  draft_tickers (symbol ∷ symbols) accepted = drafted (equity_draft (symbol ∷ symbols) accepted)

  abbrev pub draft_accepted : Sorter String → List (StoredClaim F) → DraftResult F
  draft_accepted sorter [] = not_drafted no_accepted
  draft_accepted sorter (claim ∷ claims) =
      draft_tickers (net_ticker_symbols sorter (claim ∷ claims)) (claim ∷ claims)

  -- BuildDraft
  unfoldable pub build_draft : Sorter String → List (StoredClaim F) → DraftResult F
  build_draft sorter claims = draft_accepted sorter (keep is_accepted claims)
