-- ===== src/Examples/Persistence.antt =====
-- Uploads, extractions and strategies on small tables.
use signal_ledger_project.Prelude.{
  ℕ, String, ◌⊎◌, suc, ◌≡◌, refl, true, false, not, none, some, [], ◌∷◌, ◌++◌, map, keep, first,
  update_where, count_where, contains, length, In, Distinct, inl,
}
use signal_ledger_project.Prelude.Int.{pos}
use signal_ledger_project.Domain.Research.{
  Extraction, validate, collect_pages, has_page, check_claims,
}
use signal_ledger_project.Domain.Records.{Document}
use signal_ledger_project.Store.Base.{ok}
use signal_ledger_project.Store.Tables.{Db, ClaimRow, Citation}
use signal_ledger_project.Store.Jobs.{insert_job, new_row, job_of}
use signal_ledger_project.Store.Documents.{create_document_with_extraction_job, update_status}
use signal_ledger_project.Store.Documents.Uploads.{hashes, create-again, create-hashes}
use signal_ledger_project.Store.Documents.Replace.{
  of_document, replace_extraction, delete_pages, insert_pages, insert_claims,
}
use signal_ledger_project.Store.Documents.Replace.Replaced.{page_of, replace-pages, replace-cited}
use signal_ledger_project.Store.Strategies.{
  create_strategy_with_citations, count_accepted, max_version, has_duplicate,
}
use signal_ledger_project.Store.Strategies.Versions.{Gapless, versions_of, create-Gapless}
use signal_ledger_project.Store.Strategies.Cited.{IsAccepted, create-IsAccepted}
use signal_ledger_project.Examples.Data.{
  postgres, thousandths, document, document_input, empty, reviewed, strategy, strategy_input, page,
  claim, one-Distinct,
}

abbrev uploaded : Db ℕ
uploaded = record empty {
  documents = document ∷ [];
  jobs = new_row "j1" (pos 1) "extract_document" "d1" ∷ [];
}

upload :
    create_document_with_extraction_job postgres "d1" "j1" (pos 1) document_input empty
    ≡ ok (document, some (job_of (new_row "j1" (pos 1) "extract_document" "d1")), true, uploaded)
unfolding create_document_with_extraction_job insert_job first count_where
upload = refl

create-again_example :
    create_document_with_extraction_job postgres "d2" "j2" (pos 2) document_input uploaded
    ≡ ok (document, none, false, uploaded)
create-again_example =
    create-again postgres "d1" "j1" (pos 1) document_input empty document
      (some (job_of (new_row "j1" (pos 1) "extract_document" "d1"))) true uploaded "d2" "j2" (pos 2)
      document_input upload refl

create-hashes_example : Distinct (hashes uploaded.documents)
create-hashes_example =
    create-hashes postgres "d1" "j1" (pos 1) document_input empty document
      (some (job_of (new_row "j1" (pos 1) "extract_document" "d1"))) true uploaded tt upload

abbrev stored : Db ℕ
stored = record reviewed {
  strategies = strategy ∷ [];
  citations = record { strategy_id = "s1"; claim_id = "c1" } ∷ [];
}

store :
    create_strategy_with_citations postgres "s1" (pos 6) strategy_input reviewed
    ≡ ok (strategy, stored)
unfolding create_strategy_with_citations count_accepted max_version has_duplicate count_where
    contains
store = refl

none-Gapless : Gapless reviewed.strategies
unfolding keep
none-Gapless slug = (0, refl)

create-Gapless_example :
    Gapless stored.strategies
    × (strategy.version ≡ suc (length (versions_of "orders" reviewed.strategies)))
    × (stored.strategies ≡ reviewed.strategies ++ strategy ∷ [])
create-Gapless_example =
    create-Gapless postgres "s1" (pos 6) strategy_input reviewed strategy stored none-Gapless store

create-IsAccepted_example :
    ((c : Citation)
      → In c stored.citations
      → In c reviewed.citations
        ⊎ ((c.strategy_id ≡ "s1")
            × In c.claim_id ("c1" ∷ [])
            × IsAccepted stored.claims c.claim_id))
    × ((id : String)
        → In id ("c1" ∷ [])
        → In (record { strategy_id = "s1"; claim_id = id }) stored.citations)
create-IsAccepted_example =
    create-IsAccepted postgres "s1" (pos 6) strategy_input reviewed strategy stored
      (one-Distinct "c1") store

-- A second document is extracted while the first one's claim is cited.
abbrev second_document : Document
second_document = record document { id = "d2"; storage_key = "other"; sha256 = "other" }

abbrev two_documents : Db ℕ
two_documents = record stored { documents = document ∷ second_document ∷ [] }

abbrev extraction : Extraction ℕ
extraction = record { pages = record { number = pos 1; content = "text" } ∷ []; claims = [] }

abbrev extracted : Db ℕ
extracted = record two_documents {
  documents = document ∷ record second_document { status = "ready" } ∷ [];
  pages = page ∷ record { id = "p2"; document_id = "d2"; number = pos 1; content = "text" } ∷ [];
}

extract :
    replace_extraction postgres thousandths
      (λ n. "p2")
      (λ n. "c2")
      (pos 9)
      "d2"
      extraction
      two_documents
    ≡ ok extracted
unfolding replace_extraction validate collect_pages has_page check_claims delete_pages insert_pages
    insert_claims update_status count_where contains keep update_where
extract = refl

replace-pages_example :
    (map page_of (keep (of_document "d2") extracted.pages) ≡ extraction.pages)
    × (keep (λ row. not (of_document "d2" row)) extracted.pages
        ≡ keep (λ row. not (of_document "d2" row)) two_documents.pages)
replace-pages_example =
    replace-pages postgres thousandths (λ n. "p2") (λ n. "c2") (pos 9) "d2" extraction two_documents
      extracted extract

abbrev cited_claim : ClaimRow ℕ
cited_claim = record { page_id = "p1"; claim = claim }

abbrev citation : Citation
citation = record { strategy_id = "s1"; claim_id = "c1" }

replace-cited_example : In cited_claim extracted.claims × In citation extracted.citations
replace-cited_example =
    replace-cited postgres thousandths (λ n. "p2") (λ n. "c2") (pos 9) "d2" extraction two_documents
      extracted extract citation cited_claim (inl refl) (inl refl) refl
