-- ===== src/Store/Strategies/Reviews.antt =====
-- What `SetClaimValidationStatus` writes.
use signal_ledger_project.Prelude.{
  String, ◌≡◌, ◌≢◌, refl, sym, ap, ◌∙◌, subst, ◌⊎◌, inl, inr, eq_iff, first, update_where,
  if◌then◌else◌, In, In-update_where, In-update_where_cases, Bool-cases, first-passes,
}
use signal_ledger_project.Domain.Research.{StoredClaim, valid_claim_review_status}
use signal_ledger_project.Store.Base.{
  ok, ok-injective, bind-ok, require-ok, some_or, some_or-ok, not_found, invalid_status,
}
use signal_ledger_project.Store.Tables.{Db, ClaimRow}
use signal_ledger_project.Store.Strategies.{claim_is, review, set_claim_validation_status}

-- The status is written to a stored claim of this id, and to no claim of another id; the rest of the
-- tables is as it was.
pub record IsWritten {F : Type 0} (id status : String) (before after : Db F) (claim : StoredClaim F)
    : Type 0 where
  pub row : ClaimRow F
  pub stored : In row before.claims
  pub named : row.claim.id ≡ id
  pub answered : claim ≡ record row.claim { validation_status = status }
  pub written : In (record row { claim = claim }) after.claims
  pub others : (r : ClaimRow F) → In r before.claims → r.claim.id ≢ id → In r after.claims
  pub only :
      (r : ClaimRow F)
      → In r after.claims
      → In r before.claims ⊎ ((r.claim.id ≡ id) × (r.claim.validation_status ≡ status))
  pub rest : record after { claims = before.claims } ≡ before

pub set_status-IsWritten :
    {F : Type 0} (id status : String) (before after : Db F) (claim : StoredClaim F)
    → set_claim_validation_status id status before ≡ ok (claim, after)
    → IsWritten id status before after claim
unfolding set_claim_validation_status
set_status-IsWritten {F} id status before after claim h =
    let a = require-ok (valid_claim_review_status status) invalid_status _ _ h in
    let b = bind-ok (some_or (first (claim_is id) before.claims) not_found) _ _ a.1 in
    let found = first-passes (claim_is id) b.0 before.claims (some_or-ok _ _ _ b.1) in
    let same = ok-injective _ _ b.2 in
    let cleared : Db F → Db F = (λ d. record d { claims = before.claims }) in
    let table : after
        ≡ record before { claims = update_where (claim_is id) (review status) before.claims } =
      sym (ap (λ r. r.1) same) in
    record {
      row = b.0;
      stored = found.0;
      named = (eq_iff b.0.claim.id id).0 found.1;
      answered = sym (ap (λ r. r.0) same);
      written =
          subst (λ d. In (record b.0 { claim = claim }) d.claims) (sym table)
            (subst
              (λ c.
                In (record b.0 { claim = c })
                  (update_where (claim_is id) (review status) before.claims))
              (ap (λ r. r.0) same)
              (subst
                (λ t.
                  In (if t then review status b.0 else b.0)
                    (update_where (claim_is id) (review status) before.claims))
                found.1 (In-update_where (claim_is id) (review status) b.0 before.claims found.0)));
      others = λ r m n.
          subst (λ d. In r d.claims) (sym table)
            (elim (Bool-cases (claim_is id r)) [
              | inl t ↦ absurd (n ((eq_iff r.claim.id id).0 t))
              | inr t ↦
                  subst
                    (λ b.
                      In (if b then review status r else r)
                        (update_where (claim_is id) (review status) before.claims))
                    t (In-update_where (claim_is id) (review status) r before.claims m)
            ]);
      only = λ r m.
          let k =
            In-update_where_cases (claim_is id) (review status) r before.claims
              (subst (λ d. In r d.claims) table m) in
          elim (Bool-cases (claim_is id k.0)) [
            | inl t ↦
                let q : r ≡ review status k.0 = k.2 ∙ rw t refl in
                inr (
                  ap (λ z. z.claim.id) q ∙ (eq_iff k.0.claim.id id).0 t,
                  ap (λ z. z.claim.validation_status) q,
                )
            | inr t ↦ inl (subst (λ z. In z before.claims) (sym (k.2 ∙ rw t refl)) k.1)
          ];
      rest = ap cleared table;
    }
