-- ===== src/Strategies/Service.antt =====
-- `Service.Create` of internal/strategies/service.go, over the operation of the store that it calls.
pub mod Draft
pub mod Found
pub mod Sourced
use signal_ledger_project.Prelude.{String, ◌≡◌, refl, sym, ap, Option, none, some, List, [], ◌∷◌}
use signal_ledger_project.Prelude.Int.{pos}
use signal_ledger_project.Prelude.Float.{Float}
use signal_ledger_project.Domain.Backtest.{RawMessage}
use signal_ledger_project.Domain.Records.{CreateStrategyInput}
use signal_ledger_project.Strategies.Spec.{Spec, SpecError, validate}

pub record CreateInput (F : Type 0) : Type 0 where
  pub spec : Spec F
  pub claim_ids : List String

-- What Create hands to the repository, or the reason why it does not.
pub data Refusal : Type 0 where
  no_claims : Refusal
  invalid_spec : Refusal
  encoding : Refusal

pub data Submission : Type 0 where
  refused : Refusal → Submission
  submitted : CreateStrategyInput → Submission

abbrev with_encoding : {F : Type 0} → Spec F → List String → Option RawMessage → Submission
with_encoding spec claim_ids none = refused encoding
with_encoding spec claim_ids (some raw) =
    submitted (record { slug = spec.slug; name = spec.name; spec = raw; claim_ids = claim_ids })

abbrev when_valid : Option SpecError → Submission → Submission
when_valid (some error) submission = refused invalid_spec
when_valid none submission = submission

abbrev when_claims : List String → Submission → Submission
when_claims [] submission = refused no_claims
when_claims (id ∷ ids) submission = submission

with_encoding-submitted :
    {F : Type 0} (spec : Spec F) (claim_ids : List String) (raw : Option RawMessage)
    (out : CreateStrategyInput)
    → with_encoding spec claim_ids raw ≡ submitted out
    → (raw ≡ some out.spec) × (out.slug ≡ spec.slug) × (out.claim_ids ≡ claim_ids)
with_encoding-submitted spec claim_ids none out h = cc
with_encoding-submitted spec claim_ids (some raw) out h =
    let same : record { slug = spec.slug; name = spec.name; spec = raw; claim_ids = claim_ids }
        ≡ out =
      cc in
    (ap (λ t. some t.spec) same, sym (ap (λ t. t.slug) same), sym (ap (λ t. t.claim_ids) same))

when_valid-submitted :
    (error : Option SpecError) (submission : Submission) (out : CreateStrategyInput)
    → when_valid error submission ≡ submitted out
    → (error ≡ none) × (submission ≡ submitted out)
when_valid-submitted none submission out h = (refl, h)
when_valid-submitted (some error) submission out h = cc

when_claims-submitted :
    (ids : List String) (submission : Submission) (out : CreateStrategyInput)
    → when_claims ids submission ≡ submitted out
    → (¬ (ids ≡ [])) × (submission ≡ submitted out)
when_claims-submitted [] submission out h = cc
when_claims-submitted (id ∷ ids) submission out h = (λ e. cc, h)

module _ {F : Type 0} (fl : Float F) (encode : Spec F → Option RawMessage) where
  -- Create, up to its call of CreateStrategyWithCitations. The version is set to 1 before the spec is
  -- validated; `encode` is `json.Marshal`.
  unfoldable pub create : CreateInput F → Submission
  create input =
      let normal = record input.spec { version = pos 1 } in
      when_claims input.claim_ids
        (when_valid (validate fl normal) (with_encoding normal input.claim_ids (encode normal)))

  -- What Create submits is the encoding of a spec that is valid as version 1, with its slug and with
  -- the claims of the request, of which there is at least one.
  pub create-submitted :
      (input : CreateInput F) (out : CreateStrategyInput)
      → create input ≡ submitted out
      → (validate fl (record input.spec { version = pos 1 }) ≡ none)
        × (encode (record input.spec { version = pos 1 }) ≡ some out.spec)
        × (out.slug ≡ input.spec.slug)
        × (out.claim_ids ≡ input.claim_ids)
        × ¬ (input.claim_ids ≡ [])
  unfolding create
  create-submitted input out h =
      let normal = record input.spec { version = pos 1 } in
      let a = when_claims-submitted input.claim_ids _ out h in
      let b = when_valid-submitted (validate fl normal) _ out a.1 in
      let c = with_encoding-submitted normal input.claim_ids (encode normal) out b.1 in
      (b.0, c.0, c.1, c.2, a.0)
