-- ===== src/Http/Covered.antt =====
-- The outcomes of `backtests` of internal/httpapi/backtest.go.
use signal_ledger_project.Prelude.{◌≤◌, String, ◌≡◌, false, ◌||◌, some, List, In}
use signal_ledger_project.Domain.Research.{StoredClaim}
use signal_ledger_project.Domain.Backtest.{BacktestRun, CreateBacktestInput}
use signal_ledger_project.Domain.Records.{Job, Strategy, MarketDataSnapshot}
use signal_ledger_project.Strategies.Universe.{universe_symbols}
use signal_ledger_project.Store.Base.{ok}
use signal_ledger_project.Store.Tables.{Db}
use signal_ledger_project.Store.Backtests.{is_none}
use signal_ledger_project.Store.Snapshots.{get_market_data_snapshot}
use signal_ledger_project.Store.Strategies.{get_strategy_with_citations}
use signal_ledger_project.Worker.Effects.{World}
use signal_ledger_project.Http.{Response, write_json}
use signal_ledger_project.Http.Backtests.{
  BacktestResponse, Given, backtest_response_from, create_run,
}

module _ {F : Type 0} (given : Given F) where
  -- A backtest that is accepted: its strategy and its snapshot are stored, the snapshot is ready and
  -- has every symbol of the strategy's universe, and the run and its job are created.
  pub record IsCovered (before after : Db F) (response : Response BacktestResponse) : Type 0 where
    pub input : CreateBacktestInput
    pub strategy : Strategy
    pub citations : List (StoredClaim F)
    pub found :
        get_strategy_with_citations given.by_effect input.strategy_id before
        ≡ ok (strategy, citations)
    pub snapshot : MarketDataSnapshot
    pub stored : get_market_data_snapshot input.snapshot_id before ≡ ok snapshot
    pub ready : (is_none snapshot.storage_key || is_none snapshot.checksum) ≡ false
    pub universe : List String
    pub decoded : universe_symbols given.decode_spec strategy.spec ≡ some universe
    pub covers : (symbol : String) → In symbol universe → In symbol snapshot.symbols
    pub run : BacktestRun
    pub job : Job
    pub created : create_run given input before ≡ ok ((run, job), after)
    pub answered : response ≡ write_json 202 (backtest_response_from run (some job))

  -- Either that, or an error that has changed no table.
  pub data BacktestOutcome (before : Db F) : Response BacktestResponse × World F → Type 0 where
    accepted :
        (response : Response BacktestResponse) (after : World F)
        → IsCovered before after.db response
        → BacktestOutcome before (response, after)
    refused :
        (response : Response BacktestResponse) (after : World F)
        → 400 ≤ response.status
        → after.db ≡ before
        → BacktestOutcome before (response, after)
