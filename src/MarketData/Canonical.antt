-- ===== src/MarketData/Canonical.antt =====
-- `CanonicalCSV` of internal/marketdata/storage.go does not depend on the order of the bars.
use signal_ledger_project.Prelude.{
  String, ◌≡◌, sym, ap, ◌∙◌, subst, false, inl, inr, List, [], ◌∷◌, map, eq_iff, arith, In,
  Distinct, In-map,
}
use Prim.Native.String.{◌++◌ as append}
use mathlib.Core.Path.{ap₂}
use signal_ledger_project.Prelude.Text.{str_lt_asymm, str_lt_trans_not, str_lt_total}
use signal_ledger_project.Prelude.Sorting.{Sorter, IsWeakOrder, sort_unique}
use signal_ledger_project.Domain.Records.{Bar}
use signal_ledger_project.MarketData.{Format, bar_before, csv_rows, canonical_csv}

module _ {F : Type 0} where
  bar_before_order : IsWeakOrder {A = Bar F} bar_before
  unfolding bar_before
  bar_before_order = record {
    asymm = λ a b h. ground (
      arith,
      h,
      eq_iff a.symbol b.symbol,
      eq_iff b.symbol a.symbol,
      str_lt_asymm a.symbol b.symbol,
      str_lt_asymm a.date b.date,
    );
    trans_not = λ a b c h k. ground (
      arith,
      h,
      k,
      eq_iff a.symbol b.symbol,
      eq_iff b.symbol a.symbol,
      eq_iff c.symbol b.symbol,
      eq_iff c.symbol a.symbol,
      str_lt_trans_not a.symbol b.symbol c.symbol,
      str_lt_total b.symbol a.symbol,
      str_lt_asymm c.symbol b.symbol,
      str_lt_asymm b.symbol a.symbol,
      str_lt_trans_not a.date b.date c.date,
    );
  }

  -- The symbol and the date of a bar, by which the provider has one bar.
  abbrev pub bar_key : Bar F → String × String
  bar_key bar = (bar.symbol, bar.date)

  bar_before_total :
      (a b : Bar F)
      → bar_before a b ≡ false
      → bar_before b a ≡ false
      → (a.symbol ≡ b.symbol) × (a.date ≡ b.date)
  unfolding bar_before
  bar_before_total a b h k = ground (
    arith,
    h,
    k,
    eq_iff a.symbol b.symbol,
    eq_iff b.symbol a.symbol,
    str_lt_total a.symbol b.symbol,
    str_lt_total b.symbol a.symbol,
    str_lt_total a.date b.date,
  )

  by_key :
      (bars : List (Bar F)) (a b : Bar F)
      → Distinct (map bar_key bars)
      → In a bars
      → In b bars
      → bar_key a ≡ bar_key b
      → a ≡ b
  by_key [] a b d h k e = absurd h
  by_key (x ∷ bars) a b d (inl p) (inl q) e = p ∙ sym q
  by_key (x ∷ bars) a b d (inl p) (inr k) e =
      absurd (
        d.0 (subst (λ z. In z (map bar_key bars)) (sym e ∙ ap bar_key p) (In-map bar_key b bars k)))
  by_key (x ∷ bars) a b d (inr h) (inl q) e =
      absurd
        (d.0 (subst (λ z. In z (map bar_key bars)) (e ∙ ap bar_key q) (In-map bar_key a bars h)))
  by_key (x ∷ bars) a b d (inr h) (inr k) e = by_key bars a b d.1 h k e

  Distinct-key : (bars : List (Bar F)) → Distinct (map bar_key bars) → Distinct bars
  Distinct-key [] d = tt
  Distinct-key (x ∷ bars) d = (λ h. d.0 (In-map bar_key x bars h), Distinct-key bars d.1)

  -- Two lists with the same bars, each with one bar for a symbol and a date, have the same CSV,
  -- whatever their orders and the sorting algorithm: the bytes that a checksum is taken of depend on
  -- the data only.
  pub canonical_csv_deterministic :
      (sorter : Sorter (Bar F)) (format : Format F) (xs ys : List (Bar F))
      → Distinct (map bar_key xs)
      → Distinct (map bar_key ys)
      → ((bar : Bar F) → In bar xs → In bar ys)
      → ((bar : Bar F) → In bar ys → In bar xs)
      → canonical_csv sorter format xs ≡ canonical_csv sorter format ys
  unfolding canonical_csv
  canonical_csv_deterministic sorter format xs ys dx dy to from =
      ap
        (λ bars. append "symbol,date,open,high,low,close,adj_close,volume\n" (csv_rows format bars))
        (sort_unique sorter bar_before bar_before_order xs ys
          (λ a b h k p q.
            let e = bar_before_total a b p q in by_key xs a b dx h k (ap₂ (λ s d. (s, d)) e.0 e.1))
          (Distinct-key xs dx) (Distinct-key ys dy) to from)
