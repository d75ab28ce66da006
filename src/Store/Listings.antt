-- ===== src/Store/Listings.antt =====
-- The queries of internal/store that return lists: ListStrategies, ListClaimsByDocument,
-- GetClaimsByIDs and ListMarketDataSnapshots. The sorting is the database's; ids are compared as texts.
use signal_ledger_project.Prelude.{
  String, Bool, not, List, map, ◌==◌, ltb, contains, keep, if◌then◌else◌,
}
use signal_ledger_project.Prelude.Int.{ltb_ℤ, eqb_ℤ}
use signal_ledger_project.Prelude.Text.{str_lt}
use signal_ledger_project.Prelude.Sorting.{Sorter}
use signal_ledger_project.Domain.Research.{StoredClaim}
use signal_ledger_project.Domain.Records.{Strategy, MarketDataSnapshot}
use signal_ledger_project.Store.Base.{Result, ok, ◌>>=◌}
use signal_ledger_project.Store.Tables.{Db}
use signal_ledger_project.Store.Documents.{get_document}

-- ORDER BY slug, version DESC; `collates` is the order of texts of the database.
unfoldable pub newest_first : (String → String → Bool) → Strategy → Strategy → Bool
newest_first collates a b =
    if a.slug == b.slug then ltb b.version a.version else collates a.slug b.slug

-- ListStrategies
unfoldable pub list_strategies :
    {F : Type 0} → Sorter Strategy → (String → String → Bool) → Db F → List Strategy
unfolding newest_first
list_strategies sorter collates db = sorter.sort (newest_first collates) db.strategies

-- ListMarketDataSnapshots
unfoldable pub list_market_data_snapshots :
    {F : Type 0} → Sorter MarketDataSnapshot → Db F → List MarketDataSnapshot
list_market_data_snapshots sorter db =
    sorter.sort (λ a b. ltb_ℤ b.retrieved_at a.retrieved_at) db.snapshots

module _ {F : Type 0} where
  -- ORDER BY effective_at, id
  unfoldable pub by_effect : StoredClaim F → StoredClaim F → Bool
  by_effect a b =
      if eqb_ℤ a.effective_at b.effective_at
      then str_lt a.id b.id
      else ltb_ℤ a.effective_at b.effective_at

  -- ORDER BY page_number, created_at, id
  unfoldable pub by_page : StoredClaim F → StoredClaim F → Bool
  by_page a b =
      if not (eqb_ℤ a.page_number b.page_number)
      then ltb_ℤ a.page_number b.page_number
      else if not (eqb_ℤ a.created_at b.created_at)
      then ltb_ℤ a.created_at b.created_at
      else str_lt a.id b.id

module _ {F : Type 0} (sorter : Sorter (StoredClaim F)) where
  -- ListClaimsByDocument
  unfoldable pub list_claims_by_document : String → Db F → Result (List (StoredClaim F))
  list_claims_by_document document_id db = do
    document ← get_document document_id db
    ok (
        sorter.sort by_page
          (keep (λ c. c.document_id == document_id) (map (λ row. row.claim) db.claims)))

  -- GetClaimsByIDs; no ids ask for no claims.
  unfoldable pub get_claims_by_ids : List String → Db F → List (StoredClaim F)
  get_claims_by_ids ids db =
      sorter.sort by_effect (keep (λ c. contains ids c.id) (map (λ row. row.claim) db.claims))
