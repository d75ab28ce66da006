-- ===== src/Examples/Candidates.antt =====
-- The candidates of one completed run.
use signal_ledger_project.Prelude.{ℕ, ◌≡◌, refl, List, [], ◌∷◌, map, keep, first, contains}
use signal_ledger_project.Prelude.Int.{pos}
use signal_ledger_project.Prelude.Text.{str_lt}
use signal_ledger_project.Prelude.Sorting.{insertion_sorter, insertion_sort, insert}
use signal_ledger_project.Domain.Candidate.{Candidate, CandidateFilter, normalized}
use signal_ledger_project.Store.Tables.{Db}
use signal_ledger_project.Store.Backtests.{completed_run, candidate_row}
use signal_ledger_project.Store.Candidates.{
  list_candidates, selected_runs, first_of_each, wanted_run, joined_rows, limited, attach_evidence,
}
use signal_ledger_project.Examples.Data.{postgres, testing, run, position}

abbrev ranked : Db ℕ
ranked = record testing {
  runs = completed_run (pos 9) "{}" "key" "sum" "v4" run ∷ [];
  candidates = candidate_row postgres "k1" run (pos 19) position ∷ [];
  attributions =
      record { candidate_id = "k1"; evidence = record { claim_id = "c1"; contribution = 800 } }
      ∷ [];
}

abbrev everything : CandidateFilter
everything = record { strategy_id = ""; backtest_id = ""; limit = pos 0 }

abbrev listed : List (Candidate ℕ)
listed = list_candidates insertion_sorter insertion_sorter insertion_sorter str_lt everything ranked

-- The candidate of the run is listed.
one_listed : map (λ c. c.symbol) listed ≡ "AAA" ∷ []
unfolding list_candidates selected_runs first_of_each wanted_run joined_rows limited attach_evidence
    keep first contains normalized insertion_sort insert
one_listed = refl
