-- ===== src/Quant/MarketData.antt =====
-- `FetchMarketData` of internal/quant/client.go.
use signal_ledger_project.Prelude.{ℕ, String, Option, List}
use signal_ledger_project.Domain.Research.{Time}
use signal_ledger_project.Domain.Backtest.{RawMessage}
use signal_ledger_project.Domain.Records.{Bar, MarketDataRequest, MarketDataResult}
use signal_ledger_project.Store.Base.{Result, ok, ◌>>=◌}
use signal_ledger_project.Quant.{Client, exchange}

pub record MarketDataResponse (F : Type 0) : Type 0 where
  pub provider : String
  pub bars : List (Bar F)
  pub retrieved_at : Time

module _ {F : Type 0} (client : Client) (encode : MarketDataRequest → Option RawMessage)
    (decode : List ℕ → Option (MarketDataResponse F)) where
  -- FetchMarketData
  unfoldable pub fetch_market_data : MarketDataRequest → Result (MarketDataResult F)
  fetch_market_data request = do
    result ← exchange client "/v1/market-data" (encode request) decode
    ok (record {
      provider = result.provider;
      bars = result.bars;
      retrieved_at = result.retrieved_at;
    })
