-- ===== src/Examples/Drafting.antt =====
-- A draft from one claim.
use signal_ledger_project.Prelude.{
  ℕ, String, ◌≡◌, ◌≢◌, refl, true, ◌↔◌, List, [], ◌∷◌, keep, All, In, Distinct, contains,
}
use signal_ledger_project.Prelude.Sorting.{Ordered, insertion_sorter, insertion_sort, insert}
use signal_ledger_project.Prelude.Text.{str_lt}
use signal_ledger_project.Domain.Research.{StoredClaim}
use signal_ledger_project.Store.Base.{ok}
use signal_ledger_project.Store.Listings.{get_claims_by_ids}
use signal_ledger_project.Strategies.Builder.{
  Draft, drafted, is_accepted, add_at, net_tickers, net_ticker_symbols, signed_confidence,
  equity_draft, build_draft,
}
use signal_ledger_project.Strategies.Builder.Net.{IsNamed, NetView, net_ticker_symbols_lem}
use signal_ledger_project.Strategies.Builder.Drafts.{IsOrdered, IsProposal, build_draft-drafted}
use signal_ledger_project.Strategies.Service.Draft.{
  DraftInput, all_found, named_claims, document_claims, gather, draft,
}
use signal_ledger_project.Strategies.Service.Sourced.{IsSourced, draft-IsSourced}
use signal_ledger_project.Worker.Effects.{World}
use signal_ledger_project.Examples.Data.{thousandths, claim, reviewed}

abbrev claims : List (StoredClaim ℕ)
claims = claim ∷ []

abbrev proposed : Draft ℕ
proposed = equity_draft thousandths ("AAA" ∷ []) claims

abbrev ordered : IsOrdered thousandths
ordered = record { weight_above = refl; weight_below = refl; cost_above = refl; cost_below = refl }

net_ticker_symbols_lem_example :
    ((t : String)
      → In t (net_ticker_symbols thousandths insertion_sorter claims) ↔ (
          IsNamed thousandths t claims
          × ((view : ℕ) × NetView thousandths t claims 0 view × (thousandths.lt 0 view ≡ true))))
    × Distinct (net_ticker_symbols thousandths insertion_sorter claims)
    × Ordered str_lt (net_ticker_symbols thousandths insertion_sorter claims)
net_ticker_symbols_lem_example = net_ticker_symbols_lem thousandths insertion_sorter claims

built : build_draft thousandths insertion_sorter claims ≡ drafted proposed
unfolding build_draft keep net_ticker_symbols net_tickers add_at signed_confidence insertion_sort
    insert
built = refl

build_draft-drafted_example :
    (keep (is_accepted thousandths) claims ≢ [])
    × (proposed.claims ≡ keep (is_accepted thousandths) claims)
    × (proposed.spec.universe.symbols ≢ [])
    × IsProposal thousandths ordered insertion_sorter
        (keep (is_accepted thousandths) claims)
        proposed
build_draft-drafted_example =
    build_draft-drafted thousandths ordered insertion_sorter claims proposed built

abbrev asked : DraftInput
asked = record { claim_ids = "c1" ∷ []; document_ids = [] }

abbrev world : World ℕ
world = record { db = reviewed; faults = [] }

drafted_here :
    draft thousandths insertion_sorter insertion_sorter asked world ≡ (ok proposed, world)
unfolding draft gather named_claims document_claims all_found get_claims_by_ids contains build_draft
    keep net_ticker_symbols net_tickers add_at signed_confidence insertion_sort insert
drafted_here = refl

draft-IsSourced_example :
    (proposed.claims ≢ [])
    × All (IsSourced thousandths insertion_sorter insertion_sorter asked reviewed) proposed.claims
    × (reviewed ≡ reviewed)
draft-IsSourced_example =
    draft-IsSourced thousandths insertion_sorter insertion_sorter asked world world proposed
      drafted_here
