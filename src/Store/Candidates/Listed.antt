-- ===== src/Store/Candidates/Listed.antt =====
-- What `ListCandidates` returns.
use signal_ledger_project.Prelude.{String, ◌≡◌, List, [], map, In, All}
use signal_ledger_project.Domain.Backtest.{BacktestRun}
use signal_ledger_project.Domain.Candidate.{Candidate, CandidateClaim, CandidateFilter}
use signal_ledger_project.Domain.Records.{Strategy}
use signal_ledger_project.Store.Tables.{Db, CandidateRow, Attribution}
use signal_ledger_project.Store.Candidates.{candidate_of}
use signal_ledger_project.Store.Candidates.Recency.{IsLatest}
use mathlib.Core.List.Permᴰ

module _ {F : Type 0} where
  -- A piece of evidence of a candidate: a stored claim that the candidate is attributed to.
  pub record IsEvidence (db : Db F) (candidate_id : String) (e : CandidateClaim F) : Type 0 where
    pub attribution : Attribution F
    pub stored : In attribution db.attributions
    pub attributed : attribution.candidate_id ≡ candidate_id
    pub cited : e.claim.id ≡ attribution.evidence.claim_id
    pub contribution : e.contribution ≡ attribution.evidence.contribution
    pub claim_stored : In e.claim (map (λ row. row.claim) db.claims)

  -- A listed candidate: a row of the ranking of the most recent wanted run of its strategy, with the
  -- engine's version and checksum of that run, and with stored claims as its evidence.
  pub record IsListed (filter : CandidateFilter) (db : Db F) (c : Candidate F) : Type 0 where
    pub run : BacktestRun
    pub latest : IsLatest filter db.runs run
    pub row : CandidateRow F
    pub stored : In row db.candidates
    pub of_run : row.backtest_run_id ≡ run.id
    pub strategy : Strategy
    pub of_strategy : In strategy db.strategies × (strategy.id ≡ row.strategy_id)
    pub same : record c { evidence = [] } ≡ candidate_of row run strategy
    pub evidenced : All (IsEvidence db c.id) c.evidence
