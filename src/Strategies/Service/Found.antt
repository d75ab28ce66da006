-- ===== src/Strategies/Service/Found.antt =====
-- The claims that `Service.Draft` of internal/strategies/service.go looks up.
use signal_ledger_project.Prelude.{
  String, ◌≡◌, refl, sym, ap, ◌∙◌, subst, Bool, true, false, inl, inr, List, [], ◌∷◌, ◌++◌, map,
  eqb, eqb_iff, length, if◌then◌else◌, eq_iff, In, In-append_cases, In-of_keep, contains_iff,
  Bool-cases,
}
use signal_ledger_project.Prelude.Sorting.{Sorter, In-perm}
use signal_ledger_project.Domain.Research.{StoredClaim}
use signal_ledger_project.Store.Base.{
  Result, ok, claim_missing, bind-ok as result_bind-ok, ok-injective,
}
use signal_ledger_project.Store.Tables.{Db}
use signal_ledger_project.Store.Documents.{get_document}
use signal_ledger_project.Store.Listings.{
  by_effect, by_page, get_claims_by_ids, list_claims_by_document,
}
use signal_ledger_project.Strategies.Service.Draft.{all_found, named_claims, document_claims}
use signal_ledger_project.Worker.Effects.{World, Step, give, fail, ◌>>=◌, query, bind-ok, query-ok}
use signal_ledger_project.Worker.Reading.{
  IsReading, give-IsReading, query-IsReading, bind-IsReading,
}
use mathlib.Core.List.Permᴰ

module _ {F : Type 0} where
  abbrev pub stored_claims : Db F → List (StoredClaim F)
  stored_claims db = map (λ row. row.claim) db.claims

  module _ (by_time : Sorter (StoredClaim F)) where
    In-get_claims_by_ids :
        (ids : List String) (db : Db F) (c : StoredClaim F)
        → In c (get_claims_by_ids by_time ids db)
        → In c (stored_claims db) × In c.id ids
    unfolding get_claims_by_ids
    In-get_claims_by_ids ids db c h =
        let k = In-of_keep _ c _ (In-perm c (Permᴰ.symm (by_time.perm by_effect _)) h) in
        (k.0, (contains_iff ids c.id).0 k.1)

    In-list_claims_by_document :
        (id : String) (db : Db F) (found : List (StoredClaim F)) (c : StoredClaim F)
        → list_claims_by_document by_time id db ≡ ok found
        → In c found
        → In c (stored_claims db) × (c.document_id ≡ id)
    unfolding list_claims_by_document
    In-list_claims_by_document id db found c e h =
        let b = result_bind-ok (get_document id db) _ found e in
        let k = In-of_keep _ c _ (
          In-perm c (Permᴰ.symm (by_time.perm by_page _))
            (subst (In c) (sym (ok-injective _ _ b.2)) h)) in
        (k.0, (eq_iff _ _).0 k.1)

  all_found-ok :
      (ids : List String) (found out : List (StoredClaim F)) (w after : World F)
      → all_found ids found w ≡ (ok out, after)
      → (length found ≡ length ids) × (found ≡ out) × (after ≡ w)
  unfolding all_found
  all_found-ok ids found out w after h =
      let k = given (eqb (length found) (length ids)) h in ((eqb_iff _ _).0 k.0, k.1, k.2)
    where
      given :
          (t : Bool)
          → (if t then give found else fail claim_missing) w ≡ (ok out, after)
          → (t ≡ true) × (found ≡ out) × (after ≡ w)
      given true e = (refl, ok-injective _ _ (ap (λ r. r.0) e), sym (ap (λ r. r.1) e))
      given false e = cc

  -- The claims that a step found in the tables, each with a reason why it was asked for.
  unfoldable pub IsFound :
      (StoredClaim F → Type 0) → World F → List (StoredClaim F) → World F → Type 0
  IsFound Asked w found after =
      (after.db ≡ w.db) × ((c : StoredClaim F) → In c found → In c (stored_claims w.db) × Asked c)

  module _ (by_time : Sorter (StoredClaim F)) where
    pub named_claims-ok :
        (ids : List String) (found : List (StoredClaim F)) (w after : World F)
        → named_claims by_time ids w ≡ (ok found, after)
        → IsFound (λ c. In c.id ids) w found after
    unfolding named_claims IsFound
    named_claims-ok [] found w after h = (
      sym (ap (λ r. r.1.db) h),
      λ c k. absurd (subst (In c) (sym (ok-injective _ _ (ap (λ r. r.0) h))) k),
    )
    named_claims-ok (id ∷ ids) found w after h =
        let b =
          bind-ok (query (λ db. ok (get_claims_by_ids by_time (id ∷ ids) db))) _ w after found h in
        let q = query-ok (λ db. ok (get_claims_by_ids by_time (id ∷ ids) db)) w b.1 b.0 b.2 in
        let a = all_found-ok (id ∷ ids) b.0 found b.1 after b.3 in
        (
          ap (λ v. v.db) a.2 ∙ q.1,
          λ c k.
              In-get_claims_by_ids by_time (id ∷ ids) w.db c
                (subst (In c) (sym a.1 ∙ sym (ok-injective _ _ q.0)) k),
        )

    pub document_claims-ok :
        (ids : List String) (found : List (StoredClaim F)) (w after : World F)
        → document_claims by_time ids w ≡ (ok found, after)
        → IsFound (λ c. In c.document_id ids) w found after
    unfolding document_claims IsFound
    document_claims-ok [] found w after h = (
      sym (ap (λ r. r.1.db) h),
      λ c k. absurd (subst (In c) (sym (ok-injective _ _ (ap (λ r. r.0) h))) k),
    )
    document_claims-ok (id ∷ ids) found w after h =
        let b = bind-ok (query (list_claims_by_document by_time id)) _ w after found h in
        let q = query-ok (list_claims_by_document by_time id) w b.1 b.0 b.2 in
        let r = bind-ok (document_claims by_time ids) _ b.1 after found b.3 in
        let ih = document_claims-ok ids r.0 b.1 r.1 r.2 in
        let joined : b.0 ++ r.0 ≡ found = ok-injective _ _ (ap (λ v. v.0) r.3) in
        (
          sym (ap (λ v. v.1.db) r.3) ∙ ih.0 ∙ q.1,
          λ c k. elim (In-append_cases c b.0 r.0 (subst (In c) (sym joined) k)) [
            | inl m ↦
                let n = In-list_claims_by_document by_time id w.db b.0 c q.0 m in (n.0, inl n.1)
            | inr m ↦ let n = ih.1 c m in (subst (λ db. In c (stored_claims db)) q.1 n.0, inr n.1)
          ],
        )

module _ {F : Type 0} (by_time : Sorter (StoredClaim F)) where
  all_found-IsReading :
      (ids : List String) (found : List (StoredClaim F)) → IsReading (all_found ids found)
  unfolding all_found
  all_found-IsReading ids found w = elim (Bool-cases (eqb (length found) (length ids))) [
    | inl e ↦ rw e refl
    | inr e ↦ rw e refl
  ]

  pub named_claims-IsReading : (ids : List String) → IsReading (named_claims by_time ids)
  unfolding named_claims
  named_claims-IsReading [] = give-IsReading {A = List (StoredClaim F)} []
  named_claims-IsReading (id ∷ ids) =
      let find : Db F → Result (List (StoredClaim F)) =
        (λ db. ok (get_claims_by_ids by_time (id ∷ ids) db)) in
      bind-IsReading (query find) (all_found (id ∷ ids)) (query-IsReading find)
        (all_found-IsReading (id ∷ ids))

  pub document_claims-IsReading : (ids : List String) → IsReading (document_claims by_time ids)
  unfolding document_claims
  document_claims-IsReading [] = give-IsReading {A = List (StoredClaim F)} []
  document_claims-IsReading (id ∷ ids) =
      let find : Db F → Result (List (StoredClaim F)) = list_claims_by_document by_time id in
      let join : List (StoredClaim F) → List (StoredClaim F) → Step F (List (StoredClaim F)) =
        (λ found rest. give (found ++ rest)) in
      bind-IsReading (query find) (λ found. document_claims by_time ids >>= join found)
        (query-IsReading find)
        (λ found.
          bind-IsReading (document_claims by_time ids) (join found) (document_claims-IsReading ids)
            (λ rest w. refl))
