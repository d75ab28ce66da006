-- ===== src/Examples/Services.antt =====
-- Answers of the quant service.
use Prim.Native.String.{len}
use signal_ledger_project.Prelude.{
  ℕ, String, ◌≡◌, ◌≢◌, refl, false, ◌↔◌, Option, some, List, [], ◌∷◌, map, All,
}
use signal_ledger_project.Prelude.Int.{pos}
use signal_ledger_project.Domain.Research.{Time, Extraction}
use signal_ledger_project.Domain.Ranked.{IsRanking}
use signal_ledger_project.Domain.Extracted.{IsExtraction}
use signal_ledger_project.Domain.Backtest.{RawMessage, BacktestRequest, BacktestResult}
use signal_ledger_project.Store.Base.{ok}
use signal_ledger_project.Quant.{Client, exchange, checked_body, read_body}
use signal_ledger_project.Quant.Accepted.{IsAnswer, run_backtest-ok}
use signal_ledger_project.Quant.Backtests.{
  WireRequest, WireResponse, wire_request, decode_set, decode_positions, decode_evidence,
  decode_time, to_result, run_backtest,
}
use signal_ledger_project.Quant.Extracting.{
  ExtractionResponse, ExtractionRequest, request_for, to_extraction, extract_claims,
}
use signal_ledger_project.Quant.Extracted.{extract_claims_iff}
use signal_ledger_project.Quant.Ranking.{wire_position, IsIdentified, decode_set-wire}
use signal_ledger_project.Domain.Candidate.{CandidateSet, validate_set, check_positions}
use signal_ledger_project.Examples.Data.{thousandths, result, document}

abbrev parse_date : String → Option Time
parse_date text = some (pos 19)

abbrev set : CandidateSet ℕ
set = result.candidates

ranking : IsRanking thousandths set
ranking = record { dated = λ n. refl; ranked = refl; held = ((λ e. cc, refl), tt) }

decode_set-wire_example :
    decode_set thousandths parse_date
      (record { as_of = "2024-01-31"; positions = map wire_position set.positions })
    ≡ ok set
decode_set-wire_example =
    decode_set-wire thousandths parse_date set "2024-01-31" (λ e. cc) refl ranking
      (((λ e. cc), tt), tt)

-- A service that answers everything with the same byte, which decodes to one response.
abbrev client : Client
client = record {
  base_url = "http://quant";
  post = λ url payload. some (record { status_code = 200; body = 1 ∷ []; breaks = false });
}

abbrev wire : WireResponse ℕ
wire = record {
  summary = "{}";
  equity_curve_csv = "date,equity";
  checksum = "0123456789abcdef0123456789abcdef0123456789abcdef0123456789abcdef";
  engine_version = "v4";
  candidates = record { as_of = "2024-01-31"; positions = map wire_position set.positions };
}

abbrev answer : BacktestResult ℕ
answer = record {
  summary = "{}";
  equity_curve_csv = "date,equity";
  result_checksum = "0123456789abcdef0123456789abcdef0123456789abcdef0123456789abcdef";
  engine_version = "v4";
  candidates = set;
}

abbrev request : BacktestRequest ℕ
request = record {
  backtest_id = "r1";
  spec = "{}";
  snapshot_storage_key = "key";
  snapshot_checksum = "sum";
  document_cutoff_at = pos 20;
  parameters = "";
  signals = [];
}

abbrev encode : WireRequest ℕ → Option RawMessage
encode r = some "payload"

abbrev decode : List ℕ → Option (WireResponse ℕ)
decode body = some wire

answered : run_backtest thousandths parse_date client encode decode request ≡ ok answer
unfolding run_backtest exchange checked_body read_body to_result decode_set decode_time
    decode_positions decode_evidence validate_set check_positions
answered = refl

run_backtest-ok_example :
    ((response : WireResponse ℕ) × IsAnswer client "/v1/backtests"
        (encode (wire_request request))
        decode
        response
      × (to_result thousandths parse_date response ≡ ok answer))
    × ((len answer.result_checksum ≡ 64)
        × (answer.engine_version ≢ "")
        × (answer.equity_curve_csv ≢ ""))
    × IsRanking thousandths answer.candidates
    × All IsIdentified answer.candidates.positions
run_backtest-ok_example =
    run_backtest-ok thousandths parse_date client encode decode request answer answered

abbrev extracted : ExtractionResponse ℕ
extracted = record {
  pages = record { page_number = pos 1; content = "orders grew" } ∷ [];
  claims = [];
}

abbrev extraction : Extraction ℕ
extraction = record { pages = record { number = pos 1; content = "orders grew" } ∷ []; claims = [] }

abbrev encode_document : ExtractionRequest → Option RawMessage
encode_document r = some "payload"

abbrev decode_extraction : List ℕ → Option (ExtractionResponse ℕ)
decode_extraction body = some extracted

extract_claims_iff_example :
    (extract_claims thousandths client encode_document decode_extraction document ≡ ok extraction)
    ↔ ((response : ExtractionResponse ℕ) × IsAnswer client "/v1/extract-claims"
          (encode_document (request_for document))
          decode_extraction
          response
        × (to_extraction response ≡ extraction)
        × IsExtraction thousandths extraction)
extract_claims_iff_example =
    extract_claims_iff thousandths client encode_document decode_extraction document extraction
