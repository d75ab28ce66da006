-- ===== src/Quant/Backtests.antt =====
-- `RunBacktest` of internal/quant/client_backtest.go, and what it sends and decodes.
use Prim.Native.String.{len}
use signal_ledger_project.Prelude.{
  ℕ, String, ◌||◌, not, Option, none, some, List, [], ◌∷◌, map, ◌==◌, eqb, if◌then◌else◌,
}
use signal_ledger_project.Prelude.Int.{ℤ, pos}
use signal_ledger_project.Prelude.Float.{Float}
use signal_ledger_project.Domain.Research.{Time}
use signal_ledger_project.Domain.Backtest.{RawMessage, ClaimSignal, BacktestRequest, BacktestResult}
use signal_ledger_project.Domain.Candidate.{
  CandidateSet, CandidatePosition, CandidateEvidence, CandidateError, validate_set,
}
use signal_ledger_project.Store.Base.{
  Result, ok, err, ◌>>=◌, ◌>>◌, require, some_or, undecodable, invalid_response,
}
use signal_ledger_project.Quant.{Client, exchange}

module _ (F : Type 0) where
  pub record WireSignal : Type 0 where
    pub claim_id : String
    pub symbol : String
    pub direction : String
    pub confidence : F
    pub effective_at : Time
    pub horizon_days : Option ℤ

  pub record WireRequest : Type 0 where
    pub backtest_id : String
    pub spec : RawMessage
    pub snapshot_storage_key : String
    pub snapshot_checksum : String
    pub document_cutoff_at : Time
    pub parameters : RawMessage
    pub signals : List WireSignal

  pub record WireEvidence : Type 0 where
    pub claim_id : String
    pub contribution : F

  pub record WirePosition : Type 0 where
    pub symbol : String
    pub rank : ℤ
    pub weight : F
    pub score : F
    pub momentum : F
    pub momentum_rank : F
    pub claim_support : F
    pub evidence : List WireEvidence

  pub record WireSet : Type 0 where
    pub as_of : String
    pub positions : List WirePosition

  pub record WireResponse : Type 0 where
    pub summary : RawMessage
    pub equity_curve_csv : String
    pub checksum : String
    pub engine_version : String
    pub candidates : WireSet

-- rawOrEmpty
unfoldable pub raw_or_empty : RawMessage → RawMessage
raw_or_empty value = if value == "" then "{}" else value

module _ {F : Type 0} where
  abbrev to_wire : ClaimSignal F → WireSignal F
  to_wire signal = record {
    claim_id = signal.claim_id;
    symbol = signal.symbol;
    direction = signal.direction;
    confidence = signal.confidence;
    effective_at = signal.effective_at;
    horizon_days = signal.horizon_days;
  }

  -- claimSignals
  unfoldable pub claim_signals : List (ClaimSignal F) → List (WireSignal F)
  claim_signals signals = map to_wire signals

  abbrev pub wire_request : BacktestRequest F → WireRequest F
  wire_request request = record {
    backtest_id = request.backtest_id;
    spec = request.spec;
    snapshot_storage_key = request.snapshot_storage_key;
    snapshot_checksum = request.snapshot_checksum;
    document_cutoff_at = request.document_cutoff_at;
    parameters = raw_or_empty request.parameters;
    signals = claim_signals request.signals;
  }

  -- The inner loop of decode.
  unfoldable pub decode_evidence : List (WireEvidence F) → Result (List (CandidateEvidence F))
  decode_evidence [] = ok []
  decode_evidence (item ∷ items) = do
    require (not (item.claim_id == "")) invalid_response
    rest ← decode_evidence items
    ok (record { claim_id = item.claim_id; contribution = item.contribution } ∷ rest)

  abbrev pub with_evidence : WirePosition F → List (CandidateEvidence F) → CandidatePosition F
  with_evidence position evidence = record {
    symbol = position.symbol;
    rank = position.rank;
    weight = position.weight;
    score = position.score;
    momentum = position.momentum;
    momentum_rank = position.momentum_rank;
    claim_support = position.claim_support;
    evidence = evidence;
  }

  -- The loop over the positions.
  unfoldable pub decode_positions : List (WirePosition F) → Result (List (CandidatePosition F))
  decode_positions [] = ok []
  decode_positions (position ∷ positions) = do
    evidence ← decode_evidence position.evidence
    rest ← decode_positions positions
    ok (with_evidence position evidence ∷ rest)

  abbrev pub unless_invalid : CandidateSet F → Option CandidateError → Result (CandidateSet F)
  unless_invalid set none = ok set
  unless_invalid set (some error) = err invalid_response

-- The time of a set: the zero time for an empty text, or else the date.
unfoldable pub decode_time : (String → Option Time) → String → Result Time
decode_time parse_date as_of =
    if as_of == "" then ok (pos 0) else some_or (parse_date as_of) undecodable

module _ {F : Type 0} (fl : Float F) (parse_date : String → Option Time) where
  -- candidateSet.decode; `parse_date` is `time.Parse` with the layout DateOnly.
  unfoldable pub decode_set : WireSet F → Result (CandidateSet F)
  decode_set set = do
    as_of ← decode_time parse_date set.as_of
    positions ← decode_positions set.positions
    let decoded : CandidateSet F = record { as_of = as_of; positions = positions }
    unless_invalid decoded (validate_set fl decoded)

  -- What RunBacktest makes of a decoded response.
  unfoldable pub to_result : WireResponse F → Result (BacktestResult F)
  to_result response = do
    require
        (not (
          not (eqb (len response.checksum) 64)
          || response.engine_version == ""
          || response.equity_curve_csv == ""))
        invalid_response
    candidates ← decode_set response.candidates
    ok (record {
      summary = response.summary;
      equity_curve_csv = response.equity_curve_csv;
      result_checksum = response.checksum;
      engine_version = response.engine_version;
      candidates = candidates;
    })

  module _ (client : Client) (encode : WireRequest F → Option RawMessage)
      (decode : List ℕ → Option (WireResponse F)) where
    -- RunBacktest
    unfoldable pub run_backtest : BacktestRequest F → Result (BacktestResult F)
    run_backtest request =
        exchange client "/v1/backtests" (encode (wire_request request)) decode >>= to_result
