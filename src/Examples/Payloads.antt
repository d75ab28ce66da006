-- ===== src/Examples/Payloads.antt =====
-- The payload of a run, and the specs of strategies.
use signal_ledger_project.Prelude.{
  contains, ℕ, String, refl, some, ◌≡◌, not, none, ◌*◌, [], ◌∷◌, keep, map, arith, In, Distinct,
  ◌↔◌,
}
use signal_ledger_project.Prelude.Int.{pos, ltb_ℤ}
use signal_ledger_project.Prelude.Sorting.{insertion_sorter}
use signal_ledger_project.Strategies.Signals.{build_signals, key_of}
use signal_ledger_project.Strategies.Signals.Collecting.{IsProjected}
use signal_ledger_project.Strategies.Signals.Payload.{
  In-build_signals, build_signals-Distinct, build_signals_deterministic,
  build_signals_no_look_ahead,
}
use signal_ledger_project.Strategies.Spec.{
  validate, matches_slug, is_slug_char, check_universe, check_symbols, matches_symbol,
  is_symbol_char, check_selection, valid_template, check_filters, check_risk, bad_stop,
}
use signal_ledger_project.Prelude.Strings.{
  all_chars, trim_space, trim_left, trim_cons, trim_right, is_space,
}
use signal_ledger_project.Strategies.Spec.Admitted.{IsAdmitted, validate-IsAdmitted}
use signal_ledger_project.Strategies.Universe.{missing_symbols, In-missing_symbols}
use signal_ledger_project.Strategies.Service.{CreateInput, submitted, create, create-submitted}
use signal_ledger_project.Domain.Records.{CreateStrategyInput}
use signal_ledger_project.Store.Jobs.{retry_delay, second}
use signal_ledger_project.Store.Jobs.Retry.{seconds_after, retry_delay-eq}
use signal_ledger_project.Examples.Data.{claim, signal, spec, thousandths, one-Distinct}

In-build_signals_example :
    In signal (build_signals insertion_sorter (claim ∷ []) ("AAA" ∷ []) (pos 20))
    ↔ IsProjected (claim ∷ []) ("AAA" ∷ []) (pos 20) signal
In-build_signals_example =
    In-build_signals insertion_sorter (claim ∷ []) ("AAA" ∷ []) (pos 20) signal (one-Distinct "c1")

build_signals-Distinct_example :
    Distinct
      (map key_of (build_signals insertion_sorter (claim ∷ claim ∷ []) ("AAA" ∷ []) (pos 20)))
build_signals-Distinct_example =
    build_signals-Distinct insertion_sorter (claim ∷ claim ∷ []) ("AAA" ∷ []) (pos 20)

once_twice : (a : String) → In a ("AAA" ∷ []) ↔ In a ("AAA" ∷ "AAA" ∷ [])
once_twice a = ground arith

build_signals_deterministic_example :
    build_signals insertion_sorter (claim ∷ []) ("AAA" ∷ []) (pos 20)
    ≡ build_signals insertion_sorter (claim ∷ []) ("AAA" ∷ "AAA" ∷ []) (pos 20)
build_signals_deterministic_example =
    build_signals_deterministic insertion_sorter (claim ∷ []) (claim ∷ []) ("AAA" ∷ [])
      ("AAA" ∷ "AAA" ∷ []) (pos 20) (one-Distinct "c1") (one-Distinct "c1") (λ c. (λ h. h, λ h. h))
      once_twice

build_signals_no_look_ahead_example :
    build_signals insertion_sorter (claim ∷ []) ("AAA" ∷ []) (pos 9)
    ≡ build_signals insertion_sorter
        (keep (λ c. not (ltb_ℤ (pos 9) c.effective_at)) (claim ∷ []))
        ("AAA" ∷ [])
        (pos 9)
build_signals_no_look_ahead_example =
    build_signals_no_look_ahead insertion_sorter (claim ∷ []) ("AAA" ∷ []) (pos 9)

validate-IsAdmitted_example : (validate thousandths spec ≡ none) ↔ IsAdmitted thousandths spec
validate-IsAdmitted_example = validate-IsAdmitted thousandths spec

In-missing_symbols_example :
    ((a : String)
      → In a (missing_symbols ("AAA" ∷ "BBB" ∷ []) ("AAA" ∷ []))
        ↔ (In a ("AAA" ∷ "BBB" ∷ []) × ¬ In a ("AAA" ∷ [])))
    × Distinct (missing_symbols ("AAA" ∷ "BBB" ∷ []) ("AAA" ∷ []))
In-missing_symbols_example = In-missing_symbols ("AAA" ∷ "BBB" ∷ []) ("AAA" ∷ [])

retry_delay-eq_example : retry_delay 4 ≡ seconds_after 4 * second
retry_delay-eq_example = retry_delay-eq 4

abbrev request : CreateInput ℕ
request = record { spec = spec; claim_ids = "c1" ∷ [] }

abbrev submission : CreateStrategyInput
submission = record { slug = "orders"; name = "Orders"; spec = "raw"; claim_ids = "c1" ∷ [] }

submits : create thousandths (λ s. some "raw") request ≡ submitted submission
unfolding create validate matches_slug is_slug_char all_chars trim_space trim_left trim_cons
    trim_right is_space check_universe check_symbols matches_symbol is_symbol_char check_selection
    valid_template check_filters check_risk bad_stop contains
submits = refl

create-submitted_example :
    (validate thousandths (record spec { version = pos 1 }) ≡ none)
    × (some "raw" ≡ some submission.spec)
    × (submission.slug ≡ spec.slug)
    × (submission.claim_ids ≡ request.claim_ids)
    × ¬ (request.claim_ids ≡ [])
create-submitted_example = create-submitted thousandths (λ s. some "raw") request submission submits
