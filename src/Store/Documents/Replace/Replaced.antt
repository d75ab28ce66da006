-- ===== src/Store/Documents/Replace/Replaced.antt =====
-- What replacing an extraction leaves: the pages of the new extraction, and every claim that is cited.
use signal_ledger_project.Prelude.{
  ℕ, suc, String, ◌≡◌, refl, sym, ap, ◌∙◌, subst, Bool, false, ◌&&◌, not, List, [], ◌∷◌, ◌++◌, map,
  arith, ◌==◌, eq_refl, eqb, eqb_iff, keep, count_where, contains, contains_iff, In, In-map,
  In-keep, In-append_left, Bool-cases, inl, inr,
}
use mathlib.Core.List.{append-nil, append_assoc}
use signal_ledger_project.Prelude.Int.{ℤ, eqb_ℤ}
use signal_ledger_project.Prelude.Float.{Float}
use signal_ledger_project.Domain.Research.{Time, Page, Claim, Extraction, validate}
use signal_ledger_project.Store.Base.{
  ok, some_or, bind-ok, require-ok, ok-injective, violated_constraint, invalid_input, not_found,
}
use signal_ledger_project.Store.Tables.{Db, PageRow, ClaimRow, Citation}
use signal_ledger_project.Store.Postgres.{Postgres}
use signal_ledger_project.Store.Backtests.{is_none}
use signal_ledger_project.Store.Backtests.Rankings.{keep-append, keep-not}
use signal_ledger_project.Store.Documents.{document_is, update_status}
use signal_ledger_project.Store.Documents.Replace.{
  fits_integer, fits_days, of_document, page_row, page_id, insert_pages, claim_row, insert_claims,
  delete_pages, replace_extraction,
}

-- One row for each page.
abbrev pub page_rows : (ℕ → String) → String → ℕ → List Page → List PageRow
page_rows fresh document_id index [] = []
page_rows fresh document_id index (page ∷ pages) =
    page_row (fresh index) document_id page ∷ page_rows fresh document_id (suc index) pages

insert_pages-rows :
    (fresh : ℕ → String) (document_id : String) (index : ℕ) (pages : List Page)
    (rows : List PageRow) (ids : List (ℤ × String)) (stored : List PageRow × List (ℤ × String))
    → insert_pages fresh document_id index pages rows ids ≡ ok stored
    → stored.0 ≡ rows ++ page_rows fresh document_id index pages
unfolding insert_pages
insert_pages-rows fresh document_id index [] rows ids stored h =
    sym (ap (λ p. p.0) (ok-injective _ _ h)) ∙ sym (append-nil rows)
insert_pages-rows fresh document_id index (page ∷ pages) rows ids stored h =
    let new = page_row (fresh index) document_id page in
    let a = require-ok (fits_integer page.number) violated_constraint _ _ h in
    let b =
      require-ok (eqb (count_where (λ r. r.id == new.id) rows) 0) violated_constraint _ _ a.1 in
    let c =
      require-ok
        (eqb (count_where (λ r. r.document_id == document_id && eqb_ℤ r.number page.number) rows) 0)
        violated_constraint _ _ b.1 in
    insert_pages-rows fresh document_id (suc index) pages (rows ++ new ∷ []) _ stored c.1
    ∙ append_assoc rows (new ∷ []) (page_rows fresh document_id (suc index) pages)

keep-page_rows :
    (fresh : ℕ → String) (document_id : String) (index : ℕ) (pages : List Page)
    → keep (of_document document_id) (page_rows fresh document_id index pages)
      ≡ page_rows fresh document_id index pages
unfolding keep
keep-page_rows fresh document_id index [] = refl
keep-page_rows fresh document_id index (page ∷ pages) =
    ground (arith, keep-page_rows fresh document_id (suc index) pages, eq_refl document_id)

-- A row as the page that it stores.
abbrev pub page_of : PageRow → Page
page_of row = record { number = row.number; content = row.content }

page_rows-pages :
    (fresh : ℕ → String) (document_id : String) (index : ℕ) (pages : List Page)
    → map page_of (page_rows fresh document_id index pages) ≡ pages
page_rows-pages fresh document_id index [] = refl
page_rows-pages fresh document_id index (page ∷ pages) =
    ap (λ t. page ∷ t) (page_rows-pages fresh document_id (suc index) pages)

count_where-zero :
    {A : Type 0} (p : A → Bool) (a : A) (xs : List A) → count_where p xs ≡ 0 → In a xs → p a ≡ false
unfolding count_where
count_where-zero p a [] e h = absurd h
count_where-zero p a (x ∷ xs) e (inl q) = ap p q ∙ ground arith
count_where-zero p a (x ∷ xs) e (inr h) = count_where-zero p a xs (ground arith) h

keep-twice : {A : Type 0} (p : A → Bool) (xs : List A) → keep p (keep p xs) ≡ keep p xs
unfolding keep
keep-twice p [] = refl
keep-twice p (x ∷ xs) = ground (arith, keep-twice p xs)

none_other :
    (fresh : ℕ → String) (document_id : String) (index : ℕ) (pages : List Page)
    → keep (λ row. not (of_document document_id row)) (page_rows fresh document_id index pages) ≡ []
unfolding keep
none_other fresh document_id index [] = refl
none_other fresh document_id index (page ∷ pages) =
    ground (arith, none_other fresh document_id (suc index) pages, eq_refl document_id)

module _ {F : Type 0} (pg : Postgres F) where
  insert_claims-In :
      (fresh : ℕ → String) (db_now : Time) (document_id : String) (ids : List (ℤ × String))
      (index : ℕ) (claims : List (Claim F)) (rows stored : List (ClaimRow F)) (row : ClaimRow F)
      → insert_claims pg fresh db_now document_id ids index claims rows ≡ ok stored
      → In row rows
      → In row stored
  unfolding insert_claims
  insert_claims-In fresh db_now document_id ids index [] rows stored row h k =
      subst (In row) (ok-injective _ _ h) k
  insert_claims-In fresh db_now document_id ids index (claim ∷ claims) rows stored row h k =
      let a = bind-ok (some_or (page_id claim.page_number ids) violated_constraint) _ _ h in
      let new = claim_row pg (fresh index) db_now document_id a.0 claim in
      let b = require-ok (fits_days claim.horizon_days) violated_constraint _ _ a.2 in
      let c =
        require-ok (eqb (count_where (λ r. r.claim.id == new.claim.id) rows) 0) violated_constraint
          _ _ b.1 in
      insert_claims-In fresh db_now document_id ids (suc index) claims (rows ++ new ∷ []) stored row
        c.1 (In-append_left row rows (new ∷ []) k)

  module _ (fl : Float F) (fresh_page fresh_claim : ℕ → String) (db_now : Time)
      (document_id : String) (extraction : Extraction F) (db after : Db F) where
    -- The ids of the document's pages, and of the claims on them.
    abbrev old_pages : List String
    old_pages = map (λ row. row.id) (keep (of_document document_id) db.pages)

    abbrev old_claims : List String
    old_claims = map (λ row. row.claim.id) (keep (λ row. contains old_pages row.page_id) db.claims)

    -- What a call that succeeds has checked and stored.
    record Replaced : Type 0 where
      uncited : count_where (λ c. contains old_claims c.claim_id) db.citations ≡ 0
      pages :
          after.pages
          ≡ keep (λ row. not (of_document document_id row)) db.pages
            ++ page_rows fresh_page document_id 0 extraction.pages
      ids : List (ℤ × String)
      claims :
          insert_claims pg fresh_claim db_now document_id ids 0 extraction.claims
            (keep (λ row. not (contains old_pages row.page_id)) db.claims)
          ≡ ok after.claims
      citations : after.citations ≡ db.citations

    replace-Replaced :
        replace_extraction pg fl fresh_page fresh_claim db_now document_id extraction db ≡ ok after
        → Replaced
    unfolding replace_extraction delete_pages update_status
    replace-Replaced h =
        let a = require-ok (is_none (validate fl extraction)) invalid_input _ _ h in
        let b = bind-ok (delete_pages pg document_id db) _ _ a.1 in
        let c =
          require-ok (eqb (count_where (λ c. contains old_claims c.claim_id) db.citations) 0)
            violated_constraint _ _ b.1 in
        let d =
          require-ok
            (eqb (count_where (λ t. contains old_claims t.evidence.claim_id) db.attributions) 0)
            violated_constraint _ _ c.1 in
        let cleared = ok-injective _ _ d.1 in
        let e =
          require-ok (contains (map (λ d. d.id) b.0.documents) document_id) violated_constraint _ _
            b.2 in
        let f =
          bind-ok (insert_pages fresh_page document_id 0 extraction.pages b.0.pages []) _ _ e.1 in
        let g =
          bind-ok
            (insert_claims pg fresh_claim db_now document_id f.0.1 0 extraction.claims b.0.claims) _
            _ f.2 in
        let k =
          require-ok (eqb (count_where (document_is document_id) b.0.documents) 1) not_found _ _
            g.2 in
        let same = ok-injective _ _ k.1 in
        record {
          uncited = (eqb_iff _ _).0 c.0;
          pages =
              sym (ap (λ t. t.pages) same)
              ∙ insert_pages-rows fresh_page document_id 0 extraction.pages b.0.pages [] f.0 f.1
              ∙ ap (λ t. t.pages ++ page_rows fresh_page document_id 0 extraction.pages)
                  (sym cleared);
          ids = f.0.1;
          claims =
              ap
                (λ t.
                  insert_claims pg fresh_claim db_now document_id f.0.1 0 extraction.claims
                    t.claims)
                cleared
              ∙ g.1
              ∙ ap (λ t. ok t.claims) same;
          citations = sym (ap (λ t. t.citations) same) ∙ sym (ap (λ t. t.citations) cleared);
        }

    -- After a ReplaceExtraction that succeeds, the document has the pages of the extraction, in their
    -- order, and none of an earlier attempt; other documents' pages are unchanged.
    pub replace-pages :
        replace_extraction pg fl fresh_page fresh_claim db_now document_id extraction db ≡ ok after
        → (map page_of (keep (of_document document_id) after.pages) ≡ extraction.pages)
          × (keep (λ row. not (of_document document_id row)) after.pages
              ≡ keep (λ row. not (of_document document_id row)) db.pages)
    replace-pages h =
        let r = replace-Replaced h in
        let new = page_rows fresh_page document_id 0 extraction.pages in
        (
          ap (λ rows. map page_of (keep (of_document document_id) rows)) r.pages
              ∙ ap (map page_of) (
                  keep-append (of_document document_id) _ new
                  ∙ ap (λ t. t ++ keep (of_document document_id) new)
                      (keep-not (of_document document_id) db.pages)
                  ∙ keep-page_rows fresh_page document_id 0 extraction.pages)
              ∙ page_rows-pages fresh_page document_id 0 extraction.pages,
          ap (keep others) r.pages
              ∙ keep-append others _ new
              ∙ ap (λ t. keep others (keep others db.pages) ++ t)
                  (none_other fresh_page document_id 0 extraction.pages)
              ∙ append-nil _
              ∙ keep-twice others db.pages,
        )
      where
        others : PageRow → Bool
        others = λ row. not (of_document document_id row)

    -- A claim that a strategy cites outlives every ReplaceExtraction that succeeds, and so does the
    -- citation.
    pub replace-cited :
        replace_extraction pg fl fresh_page fresh_claim db_now document_id extraction db ≡ ok after
        → (citation : Citation) (row : ClaimRow F) → In citation db.citations
        → In row db.claims
        → row.claim.id ≡ citation.claim_id
        → In row after.claims × In citation after.citations
    replace-cited h citation row cited stored e =
        let r = replace-Replaced h in
        let unlisted =
          count_where-zero (λ c. contains old_claims c.claim_id) citation db.citations r.uncited
            cited in
        let on_other_page : contains old_pages row.page_id ≡ false =
          elim (Bool-cases (contains old_pages row.page_id)) [
            | inr n ↦ n
            | inl t ↦
                let listed = (contains_iff old_claims citation.claim_id).1 (
                  subst (λ id. In id old_claims) e
                    (In-map (λ row. row.claim.id) row _
                      (In-keep (λ row. contains old_pages row.page_id) row db.claims stored t))) in
                absurd (ground (arith, listed, unlisted))
          ] in
        (
          insert_claims-In fresh_claim db_now document_id r.ids 0 extraction.claims _ after.claims
              row r.claims
              (In-keep (λ row. not (contains old_pages row.page_id)) row db.claims stored
                (ap not on_other_page)),
          subst (In citation) (sym r.citations) cited,
        )
