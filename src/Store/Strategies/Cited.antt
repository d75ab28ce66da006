-- ===== src/Store/Strategies/Cited.antt =====
-- The claims that a stored strategy cites.
use signal_ledger_project.Prelude.{
  String, ◌≡◌, sym, ◌∙◌, subst, Bool, ◌&&◌, List, map, arith, ◌==◌, eq_iff, length, keep, contains,
  contains_iff, In, In-of_keep, In-map, In-append_cases, In-append_right, ◌⊎◌, inl, inr, ap,
  In-map_cases, Distinct, length-map,
}
use signal_ledger_project.Prelude.Counting.{covers, length-keep, Distinct-keep}
use signal_ledger_project.Domain.Research.{Time}
use signal_ledger_project.Domain.Records.{Strategy, CreateStrategyInput}
use signal_ledger_project.Store.Base.{ok}
use signal_ledger_project.Store.Tables.{Db, ClaimRow, Citation}
use signal_ledger_project.Store.Postgres.{Postgres}
use signal_ledger_project.Store.Strategies.{cite, count_accepted, create_strategy_with_citations}
use signal_ledger_project.Store.Strategies.Versions.{create-Created}

module _ {F : Type 0} where
  abbrev pub claim_ids : List (ClaimRow F) → List String
  claim_ids = map (λ row. row.claim.id)

  -- An accepted row of the table has this id.
  pub record IsAccepted (rows : List (ClaimRow F)) (id : String) : Type 0 where
    pub row : ClaimRow F
    pub inside : In row rows
    pub named : row.claim.id ≡ id
    pub accepted : row.claim.validation_status ≡ "accepted"

  abbrev citable : List String → ClaimRow F → Bool
  citable ids row = contains ids row.claim.id && row.claim.validation_status == "accepted"

  count_accepted-covers :
      (ids : List String) (rows : List (ClaimRow F))
      → Distinct (claim_ids rows)
      → count_accepted ids rows ≡ length ids
      → (id : String) → In id ids
      → IsAccepted rows id
  unfolding count_accepted
  count_accepted-covers ids rows d e id h =
      let kept = keep (citable ids) rows in
      let named : (a : String) → In a (claim_ids kept) → In a ids = λ a k.
        (let r = In-map_cases (λ row. row.claim.id) a kept k in
          let t = (In-of_keep (citable ids) r.0 rows r.1).1 in
          subst (λ t. In t ids) (sym r.2) ((contains_iff ids _).0 (ground (arith, t)))) in
      let found =
        covers (claim_ids kept) ids (Distinct-keep _ (citable ids) rows d) named
          (length-map _ kept ∙ length-keep (citable ids) rows ∙ e) id h in
      let r = In-map_cases (λ row. row.claim.id) id kept found in
      let q = In-of_keep (citable ids) r.0 rows r.1 in
      record {
        row = r.0;
        inside = q.0;
        named = sym r.2;
        accepted = (eq_iff _ _).0 (ground (arith, q.1));
      }

-- When a strategy is stored, every citation that the table then has was there before, or is of the new
-- strategy and names one of the claims asked for, which is stored and accepted; and each of the claims
-- asked for is cited (where the ids of the stored claims are distinct).
pub create-IsAccepted :
    {F : Type 0} (pg : Postgres F) (new_id : String) (db_now : Time) (input : CreateStrategyInput)
    (db : Db F) (strategy : Strategy) (after : Db F)
    → Distinct (claim_ids db.claims)
    → create_strategy_with_citations pg new_id db_now input db ≡ ok (strategy, after)
    → ((c : Citation)
        → In c after.citations
        → In c db.citations
          ⊎ ((c.strategy_id ≡ strategy.id)
              × In c.claim_id input.claim_ids
              × IsAccepted after.claims c.claim_id))
      × ((id : String)
          → In id input.claim_ids
          → In (record { strategy_id = strategy.id; claim_id = id }) after.citations)
create-IsAccepted pg new_id db_now input db strategy after d h =
    let made = create-Created pg new_id db_now input db strategy after h in
    let named : new_id ≡ strategy.id = sym (ap (λ s. s.id) made.stored) in
    let accepted = count_accepted-covers input.claim_ids db.claims d made.all_accepted in
    (
      λ c m. elim (In-append_cases c db.citations _ (subst (In c) made.citations m)) [
        | inl old ↦ inl old
        | inr new ↦
            let k = In-map_cases (cite new_id) c input.claim_ids new in
            inr (
              ap (λ z. z.strategy_id) k.2 ∙ named,
              subst (λ z. In z input.claim_ids) (sym (ap (λ z. z.claim_id) k.2)) k.1,
              subst (λ rows. IsAccepted rows c.claim_id) (sym made.claims)
                  (subst (IsAccepted db.claims) (sym (ap (λ z. z.claim_id) k.2))
                    (accepted k.0 k.1)),
            )
      ],
      λ id m.
          subst (In (record { strategy_id = strategy.id; claim_id = id })) (sym made.citations) (
            In-append_right _ db.citations _ (
              subst (λ s. In (cite s id) (map (cite new_id) input.claim_ids)) named
                (In-map (cite new_id) id input.claim_ids m))),
    )
