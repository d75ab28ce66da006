-- ===== src/Strategies/Themes.antt =====
-- The macro themes of internal/strategies/builder.go, and the symbols that a claim speaks to
-- (`ClaimSymbols` and `claimThemes` of internal/strategies/signals.go).
use Prim.Native.String.{◌++◌ as append}
use signal_ledger_project.Prelude.{
  String, Bool, false, ◌||◌, Option, none, some, List, [], ◌∷◌, ◌++◌, ◌==◌, keep, if◌then◌else◌,
}
use signal_ledger_project.Prelude.Strings.{trim_space, to_lower, has_substring}
use signal_ledger_project.Domain.Research.{StoredClaim}

pub record MacroTheme : Type 0 where
  pub name : String
  pub keywords : List String
  pub symbols : List String

abbrev pub macro_themes : List MacroTheme
macro_themes =
    record {
      name = "rates";
      keywords = "rate" ∷ "treasur" ∷ "yield" ∷ "duration" ∷ "fed" ∷ "bond" ∷ [];
      symbols = "IEF" ∷ "TLT" ∷ [];
    }
    ∷ record {
      name = "oil";
      keywords = "oil" ∷ "crude" ∷ "opec" ∷ "brent" ∷ "wti" ∷ "energy" ∷ [];
      symbols = "USO" ∷ "XLE" ∷ [];
    }
    ∷ record {
      name = "dollar";
      keywords = "dollar" ∷ "currency" ∷ "fx" ∷ "euro" ∷ "yen" ∷ [];
      symbols = "UUP" ∷ [];
    }
    ∷ record {
      name = "credit";
      keywords = "credit" ∷ "spread" ∷ "high yield" ∷ "investment grade" ∷ "hybrid" ∷ [];
      symbols = "LQD" ∷ "HYG" ∷ [];
    }
    ∷ record {
      name = "equities";
      keywords = "equit" ∷ "stock" ∷ "s&p" ∷ "earnings" ∷ [];
      symbols = "SPY" ∷ [];
    }
    ∷ []

unfoldable pub mentions : String → List String → Bool
mentions lower [] = false
mentions lower (keyword ∷ keywords) = has_substring lower keyword || mentions lower keywords

unfoldable pub symbols_of : List MacroTheme → List String
symbols_of [] = []
symbols_of (theme ∷ themes) = theme.symbols ++ symbols_of themes

-- The ticker of a claim, unless it is nil or blank.
unfoldable pub named_ticker : Option String → Option String
named_ticker none = none
named_ticker (some ticker) = if trim_space ticker == "" then none else some (trim_space ticker)

module _ {F : Type 0} where
  unfoldable pub claim_themes : StoredClaim F → List MacroTheme
  unfolding mentions
  claim_themes claim =
      let lower = to_lower (append (append claim.text " ") claim.evidence_quote) in
      keep (λ theme. mentions lower theme.keywords) macro_themes

  unfoldable pub claim_symbols : StoredClaim F → List String
  unfolding symbols_of
  claim_symbols claim = elim (named_ticker claim.ticker) [
    | some ticker ↦ ticker ∷ []
    | none ↦ symbols_of (claim_themes claim)
  ]
