-- ===== src/Examples/Data.antt =====
-- The inputs of the examples. Numbers stand for floating point, in thousandths.
use signal_ledger_project.Prelude.{
  ℕ, ◌+◌, ◌*◌, ◌/◌, ◌^◌, String, true, none, some, [], ◌∷◌, ltb, leb, Distinct,
}
use signal_ledger_project.Prelude.Int.{pos}
use signal_ledger_project.Prelude.Float.{Float}
use signal_ledger_project.Domain.Research.{StoredClaim}
use signal_ledger_project.Domain.Backtest.{BacktestRun, BacktestResult, ClaimSignal}
use signal_ledger_project.Domain.Candidate.{CandidatePosition}
use signal_ledger_project.Domain.Records.{
  Document, CreateDocumentInput, Strategy, CreateStrategyInput, MarketDataSnapshot,
}
use signal_ledger_project.Strategies.Spec.{Spec}
use signal_ledger_project.Store.Tables.{Db, PageRow}
use signal_ledger_project.Store.Postgres.{Postgres}
use signal_ledger_project.Store.Backtests.{new_run}

-- Thousandths: the literals n / 10^k with k ≤ 3.
abbrev pub thousandths : Float ℕ
thousandths = record {
  lit = λ n k. n * 1000 / 10 ^ k;
  lt = ltb;
  le = leb;
  add = λ a b. a + b;
  mul = λ a b. a * b / 1000;
  div = λ a b. a * 1000 / b;
  neg = λ a. 0;
  floor = λ a. a / 1000 * 1000;
}

abbrev pub postgres : Postgres ℕ
postgres = record {
  jsonb = some;
  set_version = λ n spec. spec;
  numeric = λ x. x;
  accepts = λ bytes. true;
  char64 = some;
  date = λ t. t;
  id_payload = λ field id. id;
}

abbrev pub claim : StoredClaim ℕ
claim = record {
  id = "c1";
  document_id = "d1";
  page_number = pos 1;
  ticker = some "AAA";
  kind = "fundamental";
  direction = "positive";
  text = "Orders grow.";
  evidence_quote = "orders grew";
  horizon_days = none;
  confidence = 800;
  effective_at = pos 10;
  validation_status = "accepted";
  created_at = pos 5;
}

abbrev pub signal : ClaimSignal ℕ
signal = record {
  claim_id = "c1";
  symbol = "AAA";
  direction = "positive";
  confidence = 800;
  effective_at = pos 10;
  horizon_days = none;
}

abbrev pub strategy : Strategy
strategy = record {
  id = "s1";
  slug = "orders";
  version = 1;
  name = "Orders";
  spec = "spec";
  created_at = pos 6;
}

abbrev pub strategy_input : CreateStrategyInput
strategy_input = record { slug = "orders"; name = "Orders"; spec = "spec"; claim_ids = "c1" ∷ [] }

abbrev pub snapshot : MarketDataSnapshot
snapshot = record {
  id = "m1";
  provider = "stooq";
  symbols = "AAA" ∷ [];
  interval = "1d";
  start_date = "2024-01-01";
  end_date = "2024-02-01";
  storage_key = some "key";
  checksum = some "sum";
  retrieved_at = pos 7;
}

abbrev pub run : BacktestRun
run =
    new_run "r1" (pos 8)
      (record {
        strategy_id = "s1";
        snapshot_id = "m1";
        document_cutoff_at = pos 20;
        parameters = "";
      })
      "{}"

abbrev pub position : CandidatePosition ℕ
position = record {
  symbol = "AAA";
  rank = pos 1;
  weight = 1000;
  score = 500;
  momentum = 400;
  momentum_rank = 1000;
  claim_support = 800;
  evidence = record { claim_id = "c1"; contribution = 800 } ∷ [];
}

abbrev pub result : BacktestResult ℕ
result = record {
  summary = "{}";
  equity_curve_csv = "date,equity";
  result_checksum = "sum";
  engine_version = "v4";
  candidates = record { as_of = pos 19; positions = position ∷ [] };
}

abbrev pub page : PageRow
page = record { id = "p1"; document_id = "d1"; number = pos 1; content = "orders grew" }

abbrev pub document : Document
document = record {
  id = "d1";
  filename = "note.pdf";
  storage_key = "note";
  sha256 = "hash";
  status = "queued";
  uploaded_at = pos 1;
  source_published_at = none;
}

abbrev pub document_input : CreateDocumentInput
document_input = record {
  filename = "note.pdf";
  storage_key = "note";
  sha256 = "hash";
  size_bytes = pos 100;
  mime_type = "application/pdf";
  source_published_at = none;
}

abbrev pub empty : Db ℕ
empty = record {
  documents = [];
  pages = [];
  claims = [];
  strategies = [];
  citations = [];
  snapshots = [];
  runs = [];
  candidates = [];
  attributions = [];
  jobs = [];
}

-- A reviewed claim on a stored page.
abbrev pub reviewed : Db ℕ
reviewed = record empty {
  documents = document ∷ [];
  pages = page ∷ [];
  claims = record { page_id = "p1"; claim = claim } ∷ [];
}

-- A strategy that cites it, and a run of that strategy.
abbrev pub testing : Db ℕ
testing = record reviewed {
  strategies = strategy ∷ [];
  citations = record { strategy_id = "s1"; claim_id = "c1" } ∷ [];
  snapshots = snapshot ∷ [];
  runs = run ∷ [];
}

abbrev pub spec : Spec ℕ
spec = record {
  slug = "orders";
  version = pos 1;
  name = "Orders";
  universe = record { name = "u"; asset_class = "equity"; symbols = "AAA" ∷ [] };
  selection = record { template = "research-supported-momentum"; filters = [] };
  rebalance = record { schedule = "monthly" };
  risk = record { max_position_weight = 100; transaction_cost_bps = 10; stop_loss_pct = none };
}

-- A list of one text.
pub one-Distinct : (a : String) → Distinct (a ∷ [])
one-Distinct a = (λ h. h, tt)
