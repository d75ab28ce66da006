-- ===== src/Documents/Header.antt =====
-- The header that `Save` of internal/documents/storage.go reads first.
use signal_ledger_project.Prelude.{
  ℕ, zero, suc, ◌≡◌, refl, sym, ap, ◌∙◌, Bool, true, false, Option, none, some, List, [], ◌∷◌, ◌++◌,
  arith, eqb, eqb_iff, if◌then◌else◌,
}
use signal_ledger_project.Store.Base.{Result, ok, err, not_a_pdf, ok-injective}
use signal_ledger_project.Documents.{Bytes}
use signal_ledger_project.Documents.Storage.{
  behind, read_full, pdf_header, same_bytes, checked_header,
}
use signal_ledger_project.Documents.Writing.{joined}

behind-some :
    (b : ℕ) (o : Option (Bytes × List Bytes)) (header : Bytes) (rest : List Bytes)
    → behind b o ≡ some (header, rest)
    → (bytes : Bytes) × (o ≡ some (bytes, rest)) × (header ≡ b ∷ bytes)
behind-some b none header rest h = cc
behind-some b (some (bytes, left)) header rest h =
    let e : ◌≡◌ {A = Bytes × List Bytes} (b ∷ bytes, left) (header, rest) = cc in
    (bytes, ap (λ v. some (bytes, v.1)) e, sym (ap (λ v. v.0) e))

pub read_full-joined :
    (n : ℕ) (piece : Bytes) (pieces : List Bytes) (header : Bytes) (rest : List Bytes)
    → read_full n piece pieces ≡ some (header, rest)
    → header ++ joined rest ≡ piece ++ joined pieces
unfolding read_full joined
read_full-joined zero piece pieces header rest h =
    let e : ◌≡◌ {A = Bytes × List Bytes} ([], piece ∷ pieces) (header, rest) = cc in
    sym (ap (λ v. v.0 ++ joined v.1) e)
read_full-joined (suc n) [] [] header rest h = cc
read_full-joined (suc n) [] (piece ∷ pieces) header rest h =
    read_full-joined (suc n) piece pieces header rest h
read_full-joined (suc n) (b ∷ piece) pieces header rest h =
    let k = behind-some b (read_full n piece pieces) header rest h in
    ap (λ xs. xs ++ joined rest) k.2
    ∙ ap (λ xs. b ∷ xs) (read_full-joined n piece pieces k.0 rest k.1)

same_bytes-equal : (xs ys : Bytes) → same_bytes xs ys ≡ true → xs ≡ ys
unfolding same_bytes
same_bytes-equal [] [] h = refl
same_bytes-equal [] (y ∷ ys) h = cc
same_bytes-equal (x ∷ xs) [] h = cc
same_bytes-equal (x ∷ xs) (y ∷ ys) h =
    let k : (eqb x y ≡ true) × (same_bytes xs ys ≡ true) = ground arith in
    ap (λ z. z ∷ xs) ((eqb_iff x y).0 k.0) ∙ ap (λ zs. y ∷ zs) (same_bytes-equal xs ys k.1)

pub checked_header-ok :
    (o : Option (Bytes × List Bytes)) (header : Bytes) (rest : List Bytes)
    → checked_header o ≡ ok (header, rest)
    → (o ≡ some (header, rest)) × (header ≡ pdf_header)
checked_header-ok none header rest h = cc
checked_header-ok (some (bytes, left)) header rest h = by_test (same_bytes bytes pdf_header) refl h
  where
    by_test :
        (t : Bool)
        → same_bytes bytes pdf_header ≡ t
        → (if◌then◌else◌ {A = Result (Bytes × List Bytes)} t (ok (bytes, left)) (err not_a_pdf))
          ≡ ok (header, rest)
        → (◌≡◌ {A = Option (Bytes × List Bytes)} (some (bytes, left)) (some (header, rest)))
          × (header ≡ pdf_header)
    by_test true e h =
        let k = ok-injective _ _ h in
        (ap some k, sym (ap (λ v. v.0) k) ∙ same_bytes-equal bytes pdf_header e)
    by_test false e h = cc
