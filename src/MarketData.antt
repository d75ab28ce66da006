-- ===== src/MarketData.antt =====
-- internal/marketdata: requests for price snapshots, and the canonical CSV that a snapshot stores.
pub mod Canonical
pub mod Files
pub mod Snapshots
pub mod Frozen
use Prim.Native.String.{◌++◌ as append}
use signal_ledger_project.Prelude.{
  ℕ, String, ◌≡◌, refl, Bool, true, false, ◌&&◌, not, Option, none, some, List, [], ◌∷◌, ◌==◌,
  if◌then◌else◌,
}
use signal_ledger_project.Prelude.Int.{ℤ, ltb_ℤ}
use signal_ledger_project.Prelude.Text.{str_lt}
use signal_ledger_project.Prelude.Sorting.{Sorter}
use signal_ledger_project.Prelude.Strings.{join}
use signal_ledger_project.Domain.Research.{Time}
use signal_ledger_project.Domain.Records.{Bar, MarketDataRequest}
use signal_ledger_project.Strategies.Spec.{matches_symbol}

-- The errors of validateRequest, one for each message.
pub data RequestError : Type 0 where
  no_symbols : RequestError
  bad_symbol : String → RequestError
  bad_interval bad_start_date bad_end_date reversed_dates : RequestError

unfoldable pub check_symbols : List String → Option RequestError
check_symbols [] = none
check_symbols (symbol ∷ symbols) =
    let rest = check_symbols symbols in
    if not (matches_symbol symbol) then some (bad_symbol symbol) else rest

-- The checks of the two dates.
abbrev pub check_end : Time → Option Time → Option RequestError
check_end start none = some bad_end_date
check_end start (some end) = if ltb_ℤ end start then some reversed_dates else none

abbrev pub check_dates : Option Time → Option Time → Option RequestError
check_dates none end = some bad_start_date
check_dates (some start) end = check_end start end

abbrev pub or_else : Option RequestError → Option RequestError → Option RequestError
or_else (some error) rest = some error
or_else none rest = rest

abbrev pub unless_empty : List String → Option RequestError → Option RequestError
unless_empty [] rest = some no_symbols
unless_empty (symbol ∷ symbols) rest = rest

-- validateRequest; `parse_date` is `time.Parse` with the layout of a date. The pattern of a symbol
-- is that of a spec.
unfoldable pub validate_request : (String → Option Time) → MarketDataRequest → Option RequestError
validate_request parse_date request = unless_empty request.symbols (
    or_else (check_symbols request.symbols) (
      if not (request.interval == "1d")
      then some bad_interval
      else check_dates (parse_date request.start_date) (parse_date request.end_date)))

-- `strconv`: a price with the fewest digits that give it back, and an integer.
pub record Format (F : Type 0) : Type 0 where
  pub price : F → String
  pub integer : ℤ → String

module _ {F : Type 0} where
  -- The order of the rows.
  unfoldable pub bar_before : Bar F → Bar F → Bool
  bar_before a b =
      if not (a.symbol == b.symbol) then str_lt a.symbol b.symbol else str_lt a.date b.date

  unfoldable pub csv_row : Format F → Bar F → String
  csv_row format bar =
      append
        (join
          (bar.symbol
            ∷ bar.date
            ∷ format.price bar.opening
            ∷ format.price bar.high
            ∷ format.price bar.low
            ∷ format.price bar.closing
            ∷ format.price bar.adj_close
            ∷ format.integer bar.volume
            ∷ [])
          ",")
        "\n"

  -- The loop over the sorted bars.
  unfoldable pub csv_rows : Format F → List (Bar F) → String
  csv_rows format [] = ""
  csv_rows format (bar ∷ bars) = append (csv_row format bar) (csv_rows format bars)

  -- CanonicalCSV
  unfoldable pub canonical_csv : Sorter (Bar F) → Format F → List (Bar F) → String
  canonical_csv sorter format bars =
      append "symbol,date,open,high,low,close,adj_close,volume\n"
        (csv_rows format (sorter.sort bar_before bars))
