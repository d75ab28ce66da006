-- ===== src/Store/Strategies.antt =====
-- internal/store/strategies.go and internal/store/claims.go: reviewed claims, and immutable strategy
-- versions that cite them.
pub mod Versions
pub mod Cited
pub mod Reviews
use signal_ledger_project.Prelude.{
  ℕ, zero, suc, ◌+◌, String, ◌≡◌, refl, Bool, true, false, ◌&&◌, ◌||◌, not, Option, none, some,
  List, [], ◌∷◌, ◌++◌, map, ◌==◌, ltb, eqb, contains, length, keep, first, update_where,
  count_where, if◌then◌else◌,
}
use signal_ledger_project.Domain.Research.{Time, StoredClaim, valid_claim_review_status}
use signal_ledger_project.Domain.Backtest.{RawMessage}
use signal_ledger_project.Domain.Records.{Strategy, CreateStrategyInput}
use signal_ledger_project.Store.Base.{
  Result, ok, err, ◌>>=◌, ◌>>◌, require, some_or, not_found, claim_not_citable, invalid_status,
  violated_constraint, undecodable,
}
use signal_ledger_project.Store.Tables.{Db, ClaimRow, Citation}
use signal_ledger_project.Store.Postgres.{Postgres}

-- COALESCE(MAX(version), 0) over the rows of a slug.
unfoldable pub max_version : String → List Strategy → ℕ
max_version slug [] = 0
max_version slug (s ∷ rows) =
    let rest = max_version slug rows in
    if s.slug == slug then (if ltb rest s.version then s.version else rest) else rest

unfoldable pub has_duplicate : List String → Bool
has_duplicate [] = false
has_duplicate (x ∷ xs) = contains xs x || has_duplicate xs

abbrev pub cite : String → String → Citation
cite strategy_id claim_id = record { strategy_id = strategy_id; claim_id = claim_id }

abbrev pub next_version : String → Time → CreateStrategyInput → ℕ → RawMessage → Strategy
next_version new_id db_now input version spec = record {
  id = new_id;
  slug = input.slug;
  version = version;
  name = input.name;
  spec = spec;
  created_at = db_now;
}

module _ {F : Type 0} where
  -- SELECT COUNT(*) ... WHERE id = ANY($1) AND validation_status = 'accepted'
  unfoldable pub count_accepted : List String → List (ClaimRow F) → ℕ
  count_accepted ids =
      count_where (λ row. contains ids row.claim.id && row.claim.validation_status == "accepted")

-- CreateStrategyWithCitations. The advisory lock makes it run alone for a slug.
unfoldable pub create_strategy_with_citations :
    {F : Type 0}
    → Postgres F
    → String
    → Time
    → CreateStrategyInput
    → Db F
    → Result (Strategy × Db F)
create_strategy_with_citations pg new_id db_now input db = do
  require (eqb (count_accepted input.claim_ids db.claims) (length input.claim_ids))
      claim_not_citable
  let version = max_version input.slug db.strategies + 1
  spec ← some_or (pg.jsonb input.spec) undecodable
  require (eqb (count_where (λ s. s.id == new_id) db.strategies) 0) violated_constraint
  require (not (has_duplicate input.claim_ids)) violated_constraint
  let strategy = next_version new_id db_now input version (pg.set_version version spec)
  ok (
    strategy,
    record db {
      strategies = db.strategies ++ strategy ∷ [];
      citations = db.citations ++ map (cite new_id) input.claim_ids;
    },
  )

module _ {F : Type 0} where
  abbrev pub claim_is : String → ClaimRow F → Bool
  claim_is id row = row.claim.id == id

  abbrev pub review : String → ClaimRow F → ClaimRow F
  review status row = record row { claim = record row.claim { validation_status = status } }

  -- SetClaimValidationStatus
  unfoldable pub set_claim_validation_status :
      String → String → Db F → Result (StoredClaim F × Db F)
  set_claim_validation_status claim_id status db = do
    require (valid_claim_review_status status) invalid_status
    row ← some_or (first (claim_is claim_id) db.claims) not_found
    ok (
      (review status row).claim,
      record db { claims = update_where (claim_is claim_id) (review status) db.claims },
    )

  -- The claims that a strategy cites, in the order of their rows.
  unfoldable pub citations_of : String → Db F → List (StoredClaim F)
  citations_of id db =
      let cited = map (λ c. c.claim_id) (keep (λ c. c.strategy_id == id) db.citations) in
      map (λ row. row.claim) (keep (λ row. contains cited row.claim.id) db.claims)

  -- GetStrategyWithCitations; `by_effect` is ORDER BY effective_at, id.
  unfoldable pub get_strategy_with_citations :
      (List (StoredClaim F) → List (StoredClaim F))
      → String
      → Db F
      → Result (Strategy × List (StoredClaim F))
  get_strategy_with_citations by_effect id db = do
    strategy ← some_or (first (λ s. s.id == id) db.strategies) not_found
    ok (strategy, by_effect (citations_of id db))
