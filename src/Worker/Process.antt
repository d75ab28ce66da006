-- ===== src/Worker/Process.antt =====
-- process, processExtraction, processMarketData and runOne of internal/jobs/worker.go.
use signal_ledger_project.Prelude.{
  ℕ, String, Bool, Option, none, some, List, [], ◌∷◌, ◌==◌, leb, if◌then◌else◌,
}
use signal_ledger_project.Prelude.Sorting.{Sorter}
use signal_ledger_project.Prelude.Float.{Float}
use signal_ledger_project.Domain.Research.{Time, StoredClaim, Extraction}
use signal_ledger_project.Domain.Backtest.{
  RawMessage, BacktestRun, BacktestRequest, BacktestResult, ClaimSignal,
}
use signal_ledger_project.Domain.Candidate.{symbols}
use signal_ledger_project.Domain.Records.{
  Document, Job, Strategy, MarketDataRequest, MarketDataSnapshot,
}
use signal_ledger_project.Strategies.Spec.{Spec}
use signal_ledger_project.Strategies.Signals.{build_signals}
use signal_ledger_project.Strategies.Universe.{universe_symbols, missing_symbols}
use signal_ledger_project.Store.Base.{
  Error, Result, ok, err, some_or, undecodable, not_configured, not_ready, unauthorized_symbols,
}
use signal_ledger_project.Store.Tables.{Db}
use signal_ledger_project.Store.Postgres.{Postgres}
use signal_ledger_project.Store.Documents.{get_document, set_document_status}
use signal_ledger_project.Store.Documents.Replace.{replace_extraction}
use signal_ledger_project.Store.Backtests.{set_backtest_status}
use signal_ledger_project.Worker.Effects.{
  Step, give, fail, ◌>>=◌, ◌>>◌, rescue, call, query, command, lift,
}

-- What the worker is given: the interfaces of its `Options`, the decoders of `encoding/json`, the
-- sorting of the library, and the ids and the times that the database and the clock supply.
pub record Options (F : Type 0) : Type 0 where
  pub float : Float F
  pub postgres : Postgres F
  pub sorter : Sorter (ClaimSignal F)
  pub by_effect : List (StoredClaim F) → List (StoredClaim F)
  pub extract_claims : Document → Result (Extraction F)
  pub fetch_snapshot : Option (MarketDataRequest → Db F → Result (MarketDataSnapshot × Db F))
  pub run_backtest : Option (BacktestRequest F → Result (BacktestResult F))
  pub save_artifact : Option (String → Result String)
  pub worker_id : String
  pub lease_duration : ℕ
  pub text_field : String → RawMessage → Option String
  pub decode_request : RawMessage → Option MarketDataRequest
  pub decode_spec : RawMessage → Option (Spec F)
  pub error_text : Error → List ℕ
  pub locked : String → Bool
  pub db_now : Time
  pub worker_now : Time
  pub fresh_page : ℕ → String
  pub fresh_claim : ℕ → String
  pub fresh_candidate : ℕ → String

abbrev pub refuse_any : List String → Result (Unit {0})
refuse_any [] = ok tt
refuse_any (symbol ∷ symbols) = err unauthorized_symbols

module _ {F : Type 0} (options : Options F) where
  -- The id that a payload names; one that is missing decodes to the empty text.
  unfoldable pub payload_id : String → Job → Result String
  payload_id field job = elim (options.text_field field job.payload) [
    | none ↦ err undecodable
    | some id ↦ if id == "" then err undecodable else ok id
  ]

  -- processExtraction, once the payload names a document.
  unfoldable pub extract_document : String → Step F (Unit {0})
  extract_document id = do
    document ← query (get_document id)
    command (set_document_status document.id "processing")
    extraction ← lift (options.extract_claims document)
    command (
        replace_extraction options.postgres options.float options.fresh_page options.fresh_claim
          options.db_now document.id extraction)

  -- processMarketData
  unfoldable pub process_market_data : Job → Step F (Unit {0})
  process_market_data job = elim options.fetch_snapshot [
    | none ↦ fail not_configured
    | some fetch ↦ do
      request ← lift (some_or (options.decode_request job.payload) undecodable)
      call (fetch request) >>= λ _. give tt
  ]

  -- failIfTerminal, which returns its cause whether or not the status could be written.
  unfoldable pub fail_if_terminal : {A : Type 0} → Job → String → Error → Step F A
  fail_if_terminal job id cause =
      if leb job.max_attempts job.attempts
      then rescue (command (set_backtest_status id "failed")) (λ _. give tt) >> fail cause
      else fail cause

  -- backtestSignals
  unfoldable pub backtest_signals :
      RawMessage → List (StoredClaim F) → Time → Result (List (ClaimSignal F) × List String)
  backtest_signals raw citations cutoff = elim (universe_symbols options.decode_spec raw) [
    | none ↦ err undecodable
    | some universe ↦ ok (build_signals options.sorter citations universe cutoff, universe)
  ]

  unfoldable pub ready : MarketDataSnapshot → Result (String × String)
  ready snapshot = elim snapshot.storage_key [
    | none ↦ err not_ready
    | some key ↦ elim snapshot.checksum [
      | none ↦ err not_ready
      | some checksum ↦ ok (key, checksum)
    ]
  ]

  -- The check of the engine's symbols against the universe.
  unfoldable pub authorized : List String → List String → Result (Unit {0})
  authorized proposed universe = refuse_any (missing_symbols proposed universe)

  abbrev pub request_of :
      Strategy → String × String → BacktestRun → List (ClaimSignal F) → BacktestRequest F
  request_of strategy stored run signals = record {
    backtest_id = run.id;
    spec = strategy.spec;
    snapshot_storage_key = stored.0;
    snapshot_checksum = stored.1;
    document_cutoff_at = run.document_cutoff_at;
    parameters = run.parameters;
    signals = signals;
  }
