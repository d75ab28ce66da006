-- ===== src/Strategies/Service/Draft.antt =====
-- `Service.Draft` of internal/strategies/service.go, over the queries of the store that it calls.
use signal_ledger_project.Prelude.{
  String, Bool, true, false, List, [], ◌∷◌, ◌++◌, eqb, length, if◌then◌else◌,
}
use signal_ledger_project.Prelude.Float.{Float}
use signal_ledger_project.Prelude.Sorting.{Sorter}
use signal_ledger_project.Domain.Research.{StoredClaim}
use signal_ledger_project.Store.Base.{Result, ok, err, nothing_cited, claim_missing, empty_draft}
use signal_ledger_project.Store.Listings.{get_claims_by_ids, list_claims_by_document}
use signal_ledger_project.Strategies.Builder.{Draft, DraftResult, drafted, not_drafted, build_draft}
use signal_ledger_project.Worker.Effects.{Step, give, fail, ◌>>=◌, query, lift}

pub record DraftInput : Type 0 where
  pub claim_ids : List String
  pub document_ids : List String

module _ {F : Type 0} where
  -- Every id that is asked for must be found.
  unfoldable pub all_found : List String → List (StoredClaim F) → Step F (List (StoredClaim F))
  all_found ids found = if eqb (length found) (length ids) then give found else fail claim_missing

  abbrev pub draft_of : DraftResult F → Result (Draft F)
  draft_of (drafted d) = ok d
  draft_of (not_drafted e) = err empty_draft

abbrev pub asks_nothing : List String → List String → Bool
asks_nothing [] [] = true
asks_nothing _ _ = false

module _ {F : Type 0} (by_time : Sorter (StoredClaim F)) where
  unfoldable pub named_claims : List String → Step F (List (StoredClaim F))
  named_claims [] = give []
  named_claims (id ∷ ids) =
      query (λ db. ok (get_claims_by_ids by_time (id ∷ ids) db)) >>= all_found (id ∷ ids)

  -- The loop over the documents.
  unfoldable pub document_claims : List String → Step F (List (StoredClaim F))
  document_claims [] = give []
  document_claims (id ∷ ids) = do
    found ← query (list_claims_by_document by_time id)
    rest ← document_claims ids
    give (found ++ rest)

module _ {F : Type 0} (fl : Float F) (by_name : Sorter String)
    (by_time : Sorter (StoredClaim F)) where
  -- Draft, once something is asked for.
  unfoldable pub gather : DraftInput → Step F (Draft F)
  gather input = do
    named ← named_claims by_time input.claim_ids
    others ← document_claims by_time input.document_ids
    lift (draft_of (build_draft fl by_name (named ++ others)))

  -- Draft
  unfoldable pub draft : DraftInput → Step F (Draft F)
  draft input =
      if asks_nothing input.claim_ids input.document_ids then fail nothing_cited else gather input
