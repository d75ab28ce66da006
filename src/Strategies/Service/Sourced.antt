-- ===== src/Strategies/Service/Sourced.antt =====
-- Where the claims of a draft come from.
use signal_ledger_project.Prelude.{
  String, ◌≡◌, ◌≢◌, refl, sym, ap, ◌∙◌, subst, Bool, true, false, ◌⊎◌, inl, inr, List, [], ◌∷◌,
  ◌++◌, if◌then◌else◌, eq_iff, In, All, In-append_cases, In-of_keep, All-of_In, Bool-cases,
}
use signal_ledger_project.Prelude.Float.{Float}
use signal_ledger_project.Prelude.Sorting.{Sorter}
use signal_ledger_project.Domain.Research.{StoredClaim}
use signal_ledger_project.Store.Base.{ok, nothing_cited, ok-injective}
use signal_ledger_project.Store.Tables.{Db}
use signal_ledger_project.Strategies.Builder.{
  Draft, DraftResult, drafted, not_drafted, equity_draft, macro_draft, is_accepted, draft_themes,
  draft_tickers, draft_accepted, build_draft,
}
use signal_ledger_project.Strategies.Builder.Drafts.{drafted-injective}
use signal_ledger_project.Strategies.Service.Draft.{
  DraftInput, named_claims, document_claims, draft_of, asks_nothing, gather, draft,
}
use signal_ledger_project.Worker.Effects.{World, Step, fail, ◌>>=◌, lift, bind-ok}
use signal_ledger_project.Worker.Reading.{IsReading, bind-IsReading}
use signal_ledger_project.Strategies.Service.Found.{
  stored_claims, IsFound, named_claims-ok, document_claims-ok, named_claims-IsReading,
  document_claims-IsReading,
}

draft_of-ok : {F : Type 0} (r : DraftResult F) (d : Draft F) → draft_of r ≡ ok d → r ≡ drafted d
draft_of-ok (drafted x) d h = ap drafted (ok-injective _ _ h)
draft_of-ok (not_drafted e) d h = cc

module _ {F : Type 0} (fl : Float F) (by_name : Sorter String) where
  draft_themes-claims :
      (themes symbols : List String) (accepted : List (StoredClaim F)) (d : Draft F)
      → draft_themes fl themes symbols accepted ≡ drafted d
      → d.claims ≡ accepted
  unfolding macro_draft
  draft_themes-claims themes [] accepted d h = cc
  draft_themes-claims themes (symbol ∷ symbols) accepted d h =
      sym (ap (λ t. t.claims) (drafted-injective h))

  draft_tickers-claims :
      (symbols : List String) (accepted : List (StoredClaim F)) (d : Draft F)
      → draft_tickers fl symbols accepted ≡ drafted d
      → d.claims ≡ accepted
  unfolding equity_draft
  draft_tickers-claims [] accepted d h = draft_themes-claims _ _ accepted d h
  draft_tickers-claims (symbol ∷ symbols) accepted d h =
      sym (ap (λ t. t.claims) (drafted-injective h))

  draft_accepted-claims :
      (accepted : List (StoredClaim F)) (d : Draft F)
      → draft_accepted fl by_name accepted ≡ drafted d
      → (accepted ≢ []) × (d.claims ≡ accepted)
  draft_accepted-claims [] d h = cc
  draft_accepted-claims (claim ∷ claims) d h = (λ k. cc, draft_tickers-claims _ _ d h)

module _ {F : Type 0} (fl : Float F) (by_name : Sorter String) where
  module _ (by_time : Sorter (StoredClaim F)) (input : DraftInput) where
    gather-IsReading : IsReading (gather fl by_name by_time input)
    unfolding gather
    gather-IsReading =
        let finish : List (StoredClaim F) → List (StoredClaim F) → Step F (Draft F) =
          (λ named others. lift (draft_of (build_draft fl by_name (named ++ others)))) in
        bind-IsReading (named_claims by_time input.claim_ids)
          (λ named. document_claims by_time input.document_ids >>= finish named)
          (named_claims-IsReading by_time input.claim_ids)
          (λ named.
            bind-IsReading (document_claims by_time input.document_ids) (finish named)
              (document_claims-IsReading by_time input.document_ids) (λ others w. refl))

    draft-IsReading : IsReading (draft fl by_name by_time input)
    unfolding draft
    draft-IsReading w = elim (Bool-cases (asks_nothing input.claim_ids input.document_ids)) [
      | inl e ↦ rw e refl
      | inr e ↦ rw e (gather-IsReading w)
    ]

    -- A claim of the tables that is accepted and that the input asks for, by its id or by its document.
    pub record IsSourced (db : Db F) (c : StoredClaim F) : Type 0 where
      pub accepted : c.validation_status ≡ "accepted"
      pub stored : In c (stored_claims db)
      pub asked : In c.id input.claim_ids ⊎ In c.document_id input.document_ids

    gather-IsSourced :
        (w after : World F) (d : Draft F)
        → gather fl by_name by_time input w ≡ (ok d, after)
        → (d.claims ≢ []) × All (IsSourced w.db) d.claims
    unfolding gather build_draft IsFound
    gather-IsSourced w after d h =
        let a = bind-ok (named_claims by_time input.claim_ids) _ w after d h in
        let b = bind-ok (document_claims by_time input.document_ids) _ a.1 after d a.3 in
        let c = draft_accepted-claims fl by_name _ d (draft_of-ok _ d (ap (λ v. v.0) b.3)) in
        let named = named_claims-ok by_time input.claim_ids a.0 w a.1 a.2 in
        let others = document_claims-ok by_time input.document_ids b.0 a.1 b.1 b.2 in
        (
          λ e. c.0 (sym c.1 ∙ e),
          All-of_In (IsSourced w.db) d.claims (λ x m.
              let k = In-of_keep (is_accepted fl) x _ (subst (In x) c.1 m) in
              elim (In-append_cases x a.0 b.0 k.0) [
                | inl n ↦ record {
                  accepted = (eq_iff _ _).0 k.1;
                  stored = (named.1 x n).0;
                  asked = inl (named.1 x n).1;
                }
                | inr n ↦ record {
                  accepted = (eq_iff _ _).0 k.1;
                  stored = subst (λ db. In x (stored_claims db)) named.0 (others.1 x n).0;
                  asked = inr (others.1 x n).1;
                }
              ]),
        )

    -- A draft that Service.Draft returns rests on one claim at least, and each of its claims is
    -- stored, accepted, and asked for by its id or by its document. No table has changed.
    pub draft-IsSourced :
        (w after : World F) (d : Draft F)
        → draft fl by_name by_time input w ≡ (ok d, after)
        → (d.claims ≢ []) × All (IsSourced w.db) d.claims × (after.db ≡ w.db)
    unfolding draft
    draft-IsSourced w after d h =
        let c =
          gather-IsSourced w after d (asked (asks_nothing input.claim_ids input.document_ids) h) in
        (c.0, c.1, sym (ap (λ v. v.1.db) h) ∙ draft-IsReading w)
      where
        asked :
            (t : Bool)
            → (if t then fail nothing_cited else gather fl by_name by_time input) w ≡ (ok d, after)
            → gather fl by_name by_time input w ≡ (ok d, after)
        asked true h = cc
        asked false h = h
