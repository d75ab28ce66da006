-- ===== src/Examples/Requests.antt =====
-- The request for a backtest over HTTP.
use signal_ledger_project.Prelude.{
  ℕ, String, ◌≡◌, refl, true, some, [], ◌∷◌, first, contains, count_where, keep,
}
use signal_ledger_project.Prelude.Int.{pos}
use signal_ledger_project.Prelude.Strings.{trim_space, trim_left, trim_right, trim_cons, is_space}
use signal_ledger_project.Strategies.Universe.{universe_symbols, missing_symbols, missing_from}
use signal_ledger_project.Store.Backtests.{create_backtest_with_run_job}
use signal_ledger_project.Domain.Backtest.{validate_input}
use signal_ledger_project.Store.Snapshots.{get_market_data_snapshot}
use signal_ledger_project.Store.Jobs.{insert_job}
use signal_ledger_project.Store.Strategies.{get_strategy_with_citations, citations_of}
use signal_ledger_project.Worker.Effects.{World}
use signal_ledger_project.Http.{
  Request, valid_uuid, byte_count, char_size, uuid_chars, is_uuid_char, is_hex,
}
use signal_ledger_project.Http.Backtests.{BacktestRequestBody, Given, backtests}
use signal_ledger_project.Examples.Data.{postgres, testing, strategy, snapshot, spec}

abbrev uuid : String
uuid = "01234567-89ab-cdef-0123-456789abcdef"

abbrev world : World ℕ
world = record {
  db = record testing {
    strategies = record strategy { id = uuid } ∷ [];
    snapshots = record snapshot { id = uuid } ∷ [];
    runs = [];
  };
  faults = [];
}

abbrev body : BacktestRequestBody
body = record {
  strategy_id = uuid;
  snapshot_id = uuid;
  document_cutoff_at = "2024-02-01T00:00:00Z";
  parameters = "";
}

abbrev given : Given ℕ
given = record {
  configured = true;
  postgres = postgres;
  decode = λ text. some body;
  parse_time = λ text. some (pos 20);
  decode_spec = λ raw. some spec;
  json_valid = λ raw. true;
  by_effect = λ claims. claims;
  run_id = "r2";
  job_id = "j2";
  db_now = pos 30;
}

abbrev request : Request
request = record { method = "POST"; path = "/v1/backtests"; body = "{}" }

-- The request is accepted.
accepts : (backtests given request world).0.status ≡ 202
unfolding backtests valid_uuid byte_count char_size uuid_chars is_uuid_char is_hex
    get_strategy_with_citations citations_of first get_market_data_snapshot universe_symbols
    missing_symbols missing_from contains create_backtest_with_run_job validate_input count_where
    keep trim_space trim_left trim_right trim_cons is_space insert_job
accepts = refl
