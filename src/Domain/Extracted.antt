-- ===== src/Domain/Extracted.antt =====
-- `Extraction.Validate` of internal/domain/research.go against a description of the extractions that
-- it accepts.
use signal_ledger_project.Prelude.{
  ℕ, suc, String, ◌≡◌, ◌≢◌, refl, sym, subst, Bool, true, false, not, ◌||◌, inl, inr, ◌⊎◌, ◌↔◌,
  Option, none, some, List, [], ◌∷◌, map, arith, All, eq_iff, ◌==◌, if◌then◌else◌, In, Distinct,
}
use signal_ledger_project.Prelude.Int.{ℤ, pos, ◌≤ℤ◌, eqb_ℤ_iff}
use signal_ledger_project.Prelude.Strings.{trim_space}
use signal_ledger_project.Prelude.Float.{Float}
use signal_ledger_project.Domain.Research.{
  is_zero, Page, Claim, Extraction, valid_claim_kind, valid_direction, has_page, collect_pages,
  below_one, check_claim, check_claims, validate, no_pages,
}

-- The numbers of the pages that the loop has seen, the last first.
unfoldable pub reversed : List ℤ → List Page → List ℤ
reversed seen [] = seen
reversed seen (page ∷ pages) = reversed (page.number ∷ seen) pages

has_page_iff : (pages : List ℤ) (n : ℤ) → (has_page pages n ≡ true) ↔ In n pages
unfolding has_page
has_page_iff [] n = (λ h. cc, λ h. absurd h)
has_page_iff (p ∷ pages) n = ground (arith, has_page_iff pages n, eqb_ℤ_iff n p)

-- Pages that may follow those seen: every number is at least 1, and none is there twice.
abbrev pub Fresh : List ℤ → List Page → Type 0
Fresh seen [] = Unit
Fresh seen (page ∷ pages) =
    (pos 1 ≤ℤ page.number) × (¬ In page.number seen) × Fresh (page.number ∷ seen) pages

collect_pages_iff :
    (seen : List ℤ) (pages : List Page) → ((collect_pages seen pages).0 ≡ none) ↔ Fresh seen pages
unfolding collect_pages
collect_pages_iff seen [] = (λ h. tt, λ h. refl)
collect_pages_iff seen (page ∷ pages) =
    ground (arith, collect_pages_iff (page.number ∷ seen) pages, has_page_iff seen page.number)

collect_pages-reversed :
    (seen : List ℤ) (pages : List Page)
    → (collect_pages seen pages).0 ≡ none
    → (collect_pages seen pages).1 ≡ reversed seen pages
unfolding collect_pages reversed
collect_pages-reversed seen [] h = refl
collect_pages-reversed seen (page ∷ pages) h =
    ground (arith, collect_pages-reversed (page.number ∷ seen) pages)

In-reversed :
    (n : ℤ) (seen : List ℤ) (pages : List Page)
    → In n (reversed seen pages) ↔ (In n (map (λ page. page.number) pages) ⊎ In n seen)
unfolding reversed
In-reversed n seen [] = (inr, λ h. elim h [ inl e ↦ absurd e | inr k ↦ k ])
In-reversed n seen (page ∷ pages) = ground (arith, In-reversed n (page.number ∷ seen) pages)

abbrev pub numbers : List Page → List ℤ
numbers pages = map (λ page. page.number) pages

Fresh-iff :
    (seen : List ℤ) (pages : List Page)
    → Fresh seen pages ↔ (
        All (λ page. pos 1 ≤ℤ page.number) pages
        × Distinct (numbers pages)
        × ((n : ℤ) → In n (numbers pages) → ¬ In n seen))
Fresh-iff seen [] = (λ h. (tt, tt, λ n k. absurd k), λ h. tt)
Fresh-iff seen (page ∷ pages) =
    let ih = Fresh-iff (page.number ∷ seen) pages in
    (
      λ h.
          let k = ih.0 h.2 in
          (
            (h.0, k.0),
            (λ m. k.2 page.number m (inl refl), k.1),
            λ n m. elim m [
              | inl e ↦ λ i. h.1 (subst (λ z. In z seen) e i)
              | inr l ↦ λ i. k.2 n l (inr i)
            ],
          ),
      λ h. (
        h.0.0,
        h.2 page.number (inl refl),
        ih.1 (
          h.0.1,
          h.1.1,
          λ n m i. elim i [
            | inl e ↦ h.1.0 (subst (λ z. In z (numbers pages)) e m)
            | inr l ↦ h.2 n (inr m) l
          ],
        ),
      ),
    )

-- A check that lets through, and its counterparts for the tests.
passed :
    {E : Type 0} (t : Bool) (e : E) (rest : Option E)
    → (if t then some e else rest) ≡ none
    → (t ≡ false) × (rest ≡ none)
passed true e rest h = cc
passed false e rest h = (refl, h)

not-false : (t : Bool) → not t ≡ false → t ≡ true
not-false t h = ground arith

or_false : (s t : Bool) → s || t ≡ false → (s ≡ false) × (t ≡ false)
or_false s t h = ground arith

unequal : (s t : String) → (s == t) ≡ false → s ≢ t
unequal s t h e = absurd (ground (arith, (eq_iff s t).1 e))

differ : (s t : String) → s ≢ t → (s == t) ≡ false
differ s t h = ground (arith, (eq_iff s t).0)

abbrev pub InDays : Option ℤ → Type 0
InDays none = Unit
InDays (some days) = pos 1 ≤ℤ days

below_one_iff : (days : Option ℤ) → (below_one days ≡ false) ↔ InDays days
unfolding below_one
below_one_iff none = (λ h. tt, λ h. refl)
below_one_iff (some days) = ground arith

All-map :
    {A : Type 0} {P Q : A → Type 0} → ((a : A) → P a → Q a) → (xs : List A) → All P xs → All Q xs
All-map f [] h = tt
All-map f (x ∷ xs) h = (f x h.0, All-map f xs h.1)

module _ {F : Type 0} (fl : Float F) where
  -- A claim that an extraction may have, on one of these pages.
  pub record IsClaim (pages : List ℤ) (claim : Claim F) : Type 0 where
    pub on_page : In claim.page_number pages
    pub has_text : (trim_space claim.text ≢ "") × (trim_space claim.evidence_quote ≢ "")
    pub kind_known : valid_claim_kind claim.kind ≡ true
    pub direction_known : valid_direction claim.direction ≡ true
    pub confidence_range :
        (fl.lt claim.confidence (fl.lit 0 0) ≡ false)
        × (fl.lt (fl.lit 1 0) claim.confidence ≡ false)
    pub horizon_positive : InDays claim.horizon_days
    pub dated : is_zero claim.effective_at ≡ false

  check_claim-IsClaim :
      (pages : List ℤ) (index : ℕ) (claim : Claim F)
      → check_claim fl pages index claim ≡ none
      → IsClaim pages claim
  unfolding check_claim
  check_claim-IsClaim pages index claim h =
      let a = passed (not (has_page pages claim.page_number)) _ _ h in
      let b =
        passed (trim_space claim.text == "" || trim_space claim.evidence_quote == "") _ _ a.1 in
      let c = passed (not (valid_claim_kind claim.kind)) _ _ b.1 in
      let d = passed (not (valid_direction claim.direction)) _ _ c.1 in
      let e =
        passed (fl.lt claim.confidence (fl.lit 0 0) || fl.lt (fl.lit 1 0) claim.confidence) _ _
          d.1 in
      let f = passed (below_one claim.horizon_days) _ _ e.1 in
      let g = passed (is_zero claim.effective_at) _ _ f.1 in
      record {
        on_page = (has_page_iff _ _).0 (not-false _ a.0);
        has_text = (unequal _ _ (or_false _ _ b.0).0, unequal _ _ (or_false _ _ b.0).1);
        kind_known = not-false _ c.0;
        direction_known = not-false _ d.0;
        confidence_range = or_false _ _ e.0;
        horizon_positive = (below_one_iff claim.horizon_days).0 f.0;
        dated = g.0;
      }

  IsClaim-check_claim :
      (pages : List ℤ) (index : ℕ) (claim : Claim F)
      → IsClaim pages claim
      → check_claim fl pages index claim ≡ none
  unfolding check_claim
  IsClaim-check_claim pages index claim c =
      let on : has_page pages claim.page_number ≡ true = (has_page_iff _ _).1 c.on_page in
      let t : (trim_space claim.text == "") ≡ false = differ _ _ c.has_text.0 in
      let q : (trim_space claim.evidence_quote == "") ≡ false = differ _ _ c.has_text.1 in
      rw
        (
          on,
          t,
          q,
          c.kind_known,
          c.direction_known,
          c.confidence_range.0,
          c.confidence_range.1,
          (below_one_iff claim.horizon_days).1 c.horizon_positive,
          c.dated,
        )
        refl

  check_claims-cons :
      (pages : List ℤ) (index : ℕ) (claim : Claim F) (claims : List (Claim F))
      → (check_claims fl pages index (claim ∷ claims) ≡ none) ↔ (
          (check_claim fl pages index claim ≡ none)
          × (check_claims fl pages (suc index) claims ≡ none))
  unfolding check_claims
  check_claims-cons pages index claim claims = ground arith

  check_claims_iff :
      (pages : List ℤ) (index : ℕ) (claims : List (Claim F))
      → (check_claims fl pages index claims ≡ none) ↔ All (IsClaim pages) claims
  check_claims_iff pages index [] = (λ h. tt, λ h. unfold check_claims in refl)
  check_claims_iff pages index (claim ∷ claims) =
      let step = check_claims-cons pages index claim claims in
      let ih = check_claims_iff pages (suc index) claims in
      (
        λ h. let s = step.0 h in (check_claim-IsClaim pages index claim s.0, ih.0 s.1),
        λ h. step.1 (IsClaim-check_claim pages index claim h.0, ih.1 h.1),
      )

  -- An extraction that may be stored: it has a page, its pages have different numbers from 1 on, and
  -- every claim is on one of its pages and has what a claim needs.
  pub record IsExtraction (extraction : Extraction F) : Type 0 where
    pub pages_listed : extraction.pages ≢ []
    pub numbered : All (λ page. pos 1 ≤ℤ page.number) extraction.pages
    pub distinct : Distinct (numbers extraction.pages)
    pub claims_fit : All (IsClaim (numbers extraction.pages)) extraction.claims

  on_pages :
      (pages others : List ℤ)
      → ((n : ℤ) → In n pages → In n others)
      → (claim : Claim F) → IsClaim pages claim
      → IsClaim others claim
  on_pages pages others f claim c = record {
    on_page = f claim.page_number c.on_page;
    has_text = c.has_text;
    kind_known = c.kind_known;
    direction_known = c.direction_known;
    confidence_range = c.confidence_range;
    horizon_positive = c.horizon_positive;
    dated = c.dated;
  }

  validate_step :
      (page : Page) (pages : List Page) (claims : List (Claim F))
      → (validate fl (record { pages = page ∷ pages; claims = claims }) ≡ none) ↔ (
          ((collect_pages [] (page ∷ pages)).0 ≡ none)
          × (check_claims fl (collect_pages [] (page ∷ pages)).1 0 claims ≡ none))
  unfolding validate
  validate_step page pages claims = ground arith

  validate_page :
      (page : Page) (pages : List Page) (claims : List (Claim F))
      → (validate fl (record { pages = page ∷ pages; claims = claims }) ≡ none)
        ↔ IsExtraction (record { pages = page ∷ pages; claims = claims })
  validate_page page pages claims =
      let all : List Page = page ∷ pages in
      let step = validate_step page pages claims in
      let collected = collect_pages_iff [] all in
      let fresh = Fresh-iff [] all in
      let same : Fresh [] all → (collect_pages [] all).1 ≡ reversed [] all =
        (λ f. collect_pages-reversed [] all (collected.1 f)) in
      let to : (n : ℤ) → In n (reversed [] all) → In n (numbers all) =
        (λ n m. elim ((In-reversed n [] all).0 m) [ inl k ↦ k | inr e ↦ absurd e ]) in
      (
        λ h.
            let s = step.0 h in
            let f = collected.0 s.0 in
            let p = fresh.0 f in
            let c = (check_claims_iff (collect_pages [] all).1 0 claims).0 s.1 in
            record {
              pages_listed = λ e. cc;
              numbered = p.0;
              distinct = p.1;
              claims_fit =
                  All-map (on_pages _ (numbers all) (λ n m. to n (subst (In n) (same f) m))) claims
                    c;
            },
        λ x.
            let f = fresh.1 (x.numbered, x.distinct, λ n m i. i) in
            step.1 (
              collected.1 f,
              (check_claims_iff (collect_pages [] all).1 0 claims).1 (
                  All-map
                    (on_pages (numbers all) _
                      (λ n m. subst (In n) (sym (same f)) ((In-reversed n [] all).1 (inl m))))
                    claims x.claims_fit),
            ),
      )

  refused :
      (claims : List (Claim F))
      → validate fl (record { pages = []; claims = claims }) ≡ some no_pages
  unfolding validate
  refused claims = refl

  -- Extraction.Validate accepts exactly the extractions that may be stored.
  pub validate-none :
      (extraction : Extraction F) → (validate fl extraction ≡ none) ↔ IsExtraction extraction
  validate-none extraction = by_pages extraction.pages
    where
      by_pages :
          (pages : List Page)
          → (validate fl (record { pages = pages; claims = extraction.claims }) ≡ none)
            ↔ IsExtraction (record { pages = pages; claims = extraction.claims })
      by_pages [] = (λ h. cc (refused extraction.claims), λ x. absurd (x.pages_listed refl))
      by_pages (page ∷ pages) = validate_page page pages extraction.claims
