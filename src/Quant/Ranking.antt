-- ===== src/Quant/Ranking.antt =====
-- `decode` of internal/quant/client_backtest.go against the encoding of a ranking.
use signal_ledger_project.Prelude.{
  String, ◌≡◌, ◌≢◌, refl, ap, ◌∙◌, subst, not, inl, inr, Option, none, some, List, [], ◌∷◌, map,
  arith, All, eq_iff, ◌==◌, Bool-cases,
}
use signal_ledger_project.Prelude.Float.{Float}
use signal_ledger_project.Domain.Research.{Time}
use signal_ledger_project.Domain.Candidate.{
  CandidateSet, CandidatePosition, CandidateEvidence, CandidateError,
}
use signal_ledger_project.Domain.Ranked.{IsRanking, validate_set-none}
use signal_ledger_project.Store.Base.{ok, invalid_response, ok-injective, bind-ok, require-ok}
use signal_ledger_project.Quant.Backtests.{
  WireEvidence, WirePosition, WireSet, decode_evidence, decode_positions, unless_invalid,
  decode_time, decode_set,
}

module _ {F : Type 0} where
  abbrev pub wire_evidence : CandidateEvidence F → WireEvidence F
  wire_evidence evidence = record {
    claim_id = evidence.claim_id;
    contribution = evidence.contribution;
  }

  abbrev pub wire_position : CandidatePosition F → WirePosition F
  wire_position position = record {
    symbol = position.symbol;
    rank = position.rank;
    weight = position.weight;
    score = position.score;
    momentum = position.momentum;
    momentum_rank = position.momentum_rank;
    claim_support = position.claim_support;
    evidence = map wire_evidence position.evidence;
  }

  -- Every piece of evidence names its claim.
  abbrev pub IsIdentified : CandidatePosition F → Type 0
  IsIdentified position = All (λ evidence. evidence.claim_id ≢ "") position.evidence

  decode_evidence-wire :
      (evidence : List (CandidateEvidence F))
      → All (λ e. e.claim_id ≢ "") evidence
      → decode_evidence (map wire_evidence evidence) ≡ ok evidence
  unfolding decode_evidence
  decode_evidence-wire [] h = refl
  decode_evidence-wire (e ∷ evidence) h = elim (Bool-cases (e.claim_id == "")) [
    | inl t ↦ absurd (h.0 ((eq_iff _ _).0 t))
    | inr n ↦ rw (n, decode_evidence-wire evidence h.1) refl
  ]

  decode_evidence-ok :
      (items : List (WireEvidence F)) (evidence : List (CandidateEvidence F))
      → decode_evidence items ≡ ok evidence
      → (map wire_evidence evidence ≡ items) × All (λ e. e.claim_id ≢ "") evidence
  unfolding decode_evidence
  decode_evidence-ok [] evidence h =
      subst (λ xs. (map wire_evidence xs ≡ []) × All (λ e. e.claim_id ≢ "") xs) (ok-injective _ _ h)
        (refl, tt)
  decode_evidence-ok (item ∷ items) evidence h =
      let a = require-ok (not (item.claim_id == "")) invalid_response _ evidence h in
      let b = bind-ok (decode_evidence items) _ evidence a.1 in
      let ih = decode_evidence-ok items b.0 b.1 in
      let named : item.claim_id ≢ "" =
        λ e. absurd (ground (arith, (eq_iff item.claim_id "").1 e, a.0)) in
      subst (λ xs. (map wire_evidence xs ≡ item ∷ items) × All (λ e. e.claim_id ≢ "") xs)
        (ok-injective _ _ b.2) (ap (λ xs. item ∷ xs) ih.0, (named, ih.1))

  decode_positions-wire :
      (positions : List (CandidatePosition F))
      → All IsIdentified positions
      → decode_positions (map wire_position positions) ≡ ok positions
  unfolding decode_positions
  decode_positions-wire [] h = refl
  decode_positions-wire (p ∷ positions) h =
      rw (decode_evidence-wire p.evidence h.0, decode_positions-wire positions h.1) refl

  decode_positions-ok :
      (wire : List (WirePosition F)) (positions : List (CandidatePosition F))
      → decode_positions wire ≡ ok positions
      → (map wire_position positions ≡ wire) × All IsIdentified positions
  unfolding decode_positions
  decode_positions-ok [] positions h =
      subst (λ xs. (map wire_position xs ≡ []) × All IsIdentified xs) (ok-injective _ _ h)
        (refl, tt)
  decode_positions-ok (w ∷ wire) positions h =
      let a = bind-ok (decode_evidence w.evidence) _ positions h in
      let b = bind-ok (decode_positions wire) _ positions a.2 in
      let e = decode_evidence-ok w.evidence a.0 a.1 in
      let ih = decode_positions-ok wire b.0 b.1 in
      subst (λ xs. (map wire_position xs ≡ w ∷ wire) × All IsIdentified xs) (ok-injective _ _ b.2)
        (
          ap (λ xs. record w { evidence = xs } ∷ map wire_position b.0) e.0
              ∙ ap (λ xs. w ∷ xs) ih.0,
          (e.1, ih.1),
        )

  unless_invalid-ok :
      (set out : CandidateSet F) (e : Option CandidateError)
      → unless_invalid set e ≡ ok out
      → (e ≡ none) × (set ≡ out)
  unless_invalid-ok set out none h = (refl, ok-injective _ _ h)
  unless_invalid-ok set out (some x) h = cc

module _ {F : Type 0} (fl : Float F) (parse_date : String → Option Time) where
  -- What decode returns is a ranking in which every piece of evidence names its claim, and it has
  -- every position and every number of the response; its time is the date of the response.
  pub decode_set-ok :
      (wire : WireSet F) (set : CandidateSet F)
      → decode_set fl parse_date wire ≡ ok set
      → IsRanking fl set
        × All IsIdentified set.positions
        × (map wire_position set.positions ≡ wire.positions)
        × (decode_time parse_date wire.as_of ≡ ok set.as_of)
  unfolding decode_set
  decode_set-ok wire set h =
      let a = bind-ok (decode_time parse_date wire.as_of) _ set h in
      let b = bind-ok (decode_positions wire.positions) _ set a.2 in
      let c = unless_invalid-ok _ set _ b.2 in
      let p = decode_positions-ok wire.positions b.0 b.1 in
      subst
        (λ s.
          IsRanking fl s
          × All IsIdentified s.positions
          × (map wire_position s.positions ≡ wire.positions)
          × (decode_time parse_date wire.as_of ≡ ok s.as_of))
        c.1 ((validate_set-none fl _).0 c.0, p.1, p.0, a.1)

  -- Decoding gives back every ranking whose evidence names its claims from its encoding, with the
  -- date written as a text that `time.Parse` reads.
  pub decode_set-wire :
      (set : CandidateSet F) (as_of : String)
      → as_of ≢ ""
      → parse_date as_of ≡ some set.as_of
      → IsRanking fl set
      → All IsIdentified set.positions
      → decode_set fl parse_date
          (record { as_of = as_of; positions = map wire_position set.positions })
        ≡ ok set
  unfolding decode_set decode_time
  decode_set-wire set as_of n d r i = elim (Bool-cases (as_of == "")) [
    | inl t ↦ absurd (n ((eq_iff _ _).0 t))
    | inr f ↦ rw (f, d, decode_positions-wire set.positions i, (validate_set-none fl set).1 r) refl
  ]
