-- ===== src/Store/Documents/Uploads.antt =====
-- Uploading the same content twice.
use signal_ledger_project.Prelude.{
  String, ◌≡◌, refl, sym, ap, ◌∙◌, subst, Bool, true, false, Option, none, some, List, [], ◌∷◌,
  ◌++◌, map, arith, ◌==◌, eq_iff, eqb, first, count_where, In, Distinct, In-append_cases, inl, inr,
}
use signal_ledger_project.Domain.Research.{Time}
use signal_ledger_project.Domain.Records.{Document, CreateDocumentInput, Job}
use signal_ledger_project.Store.Base.{
  ok, some_or, ◌>>=◌, bind-ok, require-ok, some_or-ok, ok-injective, violated_constraint,
}
use signal_ledger_project.Store.Tables.{Db}
use signal_ledger_project.Store.Postgres.{Postgres}
use signal_ledger_project.Store.Backtests.{enqueue}
use signal_ledger_project.Store.Documents.{
  has_hash, new_document, insert_document, create_document_with_extraction_job,
}

abbrev pub hashes : List Document → List String
hashes = map (λ d. d.sha256)

first-append :
    {A : Type 0} (p : A → Bool) (xs ys : List A)
    → first p xs ≡ none
    → first p (xs ++ ys) ≡ first p ys
unfolding first
first-append p [] ys h = refl
first-append p (x ∷ xs) ys h = ground (arith, first-append p xs ys)

not_In-hashes :
    (sha256 : String) (rows : List Document)
    → first (has_hash sha256) rows ≡ none
    → ¬ In sha256 (hashes rows)
unfolding first
not_In-hashes sha256 [] h k = k
not_In-hashes sha256 (d ∷ rows) h (inl e) = ground (arith, eq_iff d.sha256 sha256)
not_In-hashes sha256 (d ∷ rows) h (inr k) = not_In-hashes sha256 rows (ground (arith)) k

Distinct-append :
    {A : Type 0} (xs : List A) (a : A) → Distinct xs → ¬ In a xs → Distinct (xs ++ a ∷ [])
Distinct-append [] a d n = (λ h. h, tt)
Distinct-append (x ∷ xs) a d n = (
  λ h. elim (In-append_cases x xs (a ∷ []) h) [
    | inl k ↦ d.0 k
    | inr k ↦ elim k [ inl e ↦ n (inl (sym e)) | inr z ↦ z ]
  ],
  Distinct-append xs a d.1 (λ h. n (inr h)),
)

first-hash :
    (sha256 : String) {d : Document} → d.sha256 ≡ sha256 → first (has_hash sha256) (d ∷ []) ≡ some d
unfolding first
first-hash sha256 {d} e = ground (arith, eq_iff d.sha256 sha256)

map-append : {A B : Type 0} (f : A → B) (xs ys : List A) → map f (xs ++ ys) ≡ map f xs ++ map f ys
map-append f [] ys = refl
map-append f (x ∷ xs) ys = ap (λ t. f x ∷ t) (map-append f xs ys)

module _ {F : Type 0} (pg : Postgres F) (doc_id job_id : String) (db_now : Time)
    (input : CreateDocumentInput) (db : Db F) (document : Document) (job : Option Job)
    (is_new : Bool) (after : Db F) where
  -- What an upload does: the document with the same content that is there, and nothing else; or a new one.
  pub data Uploaded (sha256 : String) : Type 0 where
    duplicate :
        first (has_hash sha256) db.documents ≡ some document
        → is_new ≡ false
        → job ≡ none
        → after ≡ db
        → Uploaded sha256
    created :
        first (has_hash sha256) db.documents ≡ none
        → is_new ≡ true
        → document ≡ new_document doc_id db_now sha256 input
        → after.documents ≡ db.documents ++ document ∷ []
        → Uploaded sha256

  insert-Uploaded :
      (sha256 : String) (found : Option Document)
      → first (has_hash sha256) db.documents ≡ found
      → insert_document pg doc_id job_id db_now sha256 input db found
        ≡ ok (document, job, is_new, after)
      → Uploaded sha256
  insert-Uploaded sha256 (some existing) e h =
      let same = ok-injective _ _ h in
      duplicate (e ∙ ap some (ap (λ r. r.0) same)) (sym (ap (λ r. r.2) same))
        (sym (ap (λ r. r.1) same)) (sym (ap (λ r. r.3) same))
  insert-Uploaded sha256 none e h =
      let a =
        require-ok (eqb (count_where (λ d. d.id == doc_id) db.documents) 0) violated_constraint _ _
          h in
      let b =
        require-ok (eqb (count_where (λ d. d.storage_key == input.storage_key) db.documents) 0)
          violated_constraint _ _ a.1 in
      let c =
        bind-ok
          (enqueue pg job_id db_now "extract_document" (pg.id_payload "document_id" doc_id) db.jobs)
          _ _ b.1 in
      let same = ok-injective _ _ c.2 in
      created e (sym (ap (λ r. r.2) same)) (sym (ap (λ r. r.0) same))
        (sym (ap (λ r. r.3.documents) same) ∙ ap (λ d. db.documents ++ d ∷ []) (ap (λ r. r.0) same))

  pub create-Uploaded :
      create_document_with_extraction_job pg doc_id job_id db_now input db
        ≡ ok (document, job, is_new, after)
      → (sha256 : String) × (pg.char64 input.sha256 ≡ some sha256) × Uploaded sha256
  unfolding create_document_with_extraction_job
  create-Uploaded h =
      let a = bind-ok (some_or (pg.char64 input.sha256) violated_constraint) _ _ h in
      (a.0, some_or-ok _ _ _ a.1, insert-Uploaded a.0 (first (has_hash a.0) db.documents) refl a.2)

  -- Documents stay distinct by content: an upload that succeeds keeps the stored hashes distinct.
  pub create-hashes :
      Distinct (hashes db.documents)
      → create_document_with_extraction_job pg doc_id job_id db_now input db
        ≡ ok (document, job, is_new, after)
      → Distinct (hashes after.documents)
  create-hashes d h = elim ((create-Uploaded h).2) [
    | duplicate e _ _ same ↦ subst (λ t. Distinct (hashes t.documents)) (sym same) d
    | created e _ stored added ↦
        subst (λ rows. Distinct (hashes rows)) (sym added)
          (subst Distinct (sym (map-append (λ t. t.sha256) db.documents _)) (
            Distinct-append (hashes db.documents) document.sha256 d (λ k.
              not_In-hashes (create-Uploaded h).0 db.documents e
                (subst (λ t. In t (hashes db.documents)) (ap (λ t. t.sha256) stored) k))))
  ]

  -- After an upload that succeeds, every upload with the same hash returns the document that the
  -- first one returned, enqueues no job and changes nothing.
  pub create-again :
      (doc_id' job_id' : String) (later : Time) (input' : CreateDocumentInput)
      → create_document_with_extraction_job pg doc_id job_id db_now input db
        ≡ ok (document, job, is_new, after)
      → input'.sha256 ≡ input.sha256
      → create_document_with_extraction_job pg doc_id' job_id' later input' after
        ≡ ok (document, none, false, after)
  unfolding create_document_with_extraction_job
  create-again doc_id' job_id' later input' h e =
      let u = create-Uploaded h in
      let stored : first (has_hash u.0) after.documents ≡ some document = elim (u.2) [
        | duplicate f _ _ same ↦
            subst (λ t. first (has_hash u.0) t.documents ≡ some document) (sym same) f
        | created n _ new added ↦
            ap (first (has_hash u.0)) added
            ∙ first-append (has_hash u.0) db.documents _ n
            ∙ first-hash u.0 (ap (λ t. t.sha256) new)
      ] in
      ap
        (λ o. some_or o violated_constraint >>= λ s.
          insert_document pg doc_id' job_id' later s input' after
            (first (has_hash s) after.documents))
        (ap pg.char64 e ∙ u.1)
      ∙ ap (insert_document pg doc_id' job_id' later u.0 input' after) stored
