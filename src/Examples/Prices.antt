-- ===== src/Examples/Prices.antt =====
-- The bars of two symbols, in both orders, and a snapshot of them.
use signal_ledger_project.Prelude.{
  ℕ, String, ◌≡◌, refl, ap, sym, ◌∙◌, ◌≢◌, eq_refl, true, false, some, List, [], ◌∷◌, inl, inr,
  ◌==◌,
}
use signal_ledger_project.Prelude.Int.{pos}
use signal_ledger_project.Prelude.Sorting.{insertion_sorter}
use signal_ledger_project.Domain.Records.{Bar, MarketDataRequest, MarketDataSnapshot}
use signal_ledger_project.Store.Base.{ok}
use signal_ledger_project.Store.Snapshots.{insert_market_data_snapshot}
use signal_ledger_project.Worker.Effects.{World}
use signal_ledger_project.Documents.{Disk}
use signal_ledger_project.Documents.Complete.{calm}
use signal_ledger_project.Prelude.{count_where, if◌then◌else◌}
use signal_ledger_project.Prelude.Strings.{all_chars}
use signal_ledger_project.Strategies.Spec.{matches_symbol, is_symbol_char}
use signal_ledger_project.MarketData.{Format, check_symbols, validate_request, canonical_csv}
use signal_ledger_project.MarketData.Files.{path_below, place, save_in, save_snapshot}
use signal_ledger_project.MarketData.Snapshots.{Given, fetch_snapshot}
use signal_ledger_project.MarketData.Frozen.{IsFrozen, fetch_snapshot-IsFrozen}
use signal_ledger_project.Examples.Data.{postgres, empty}
use signal_ledger_project.Examples.Uploads.{platform}
use signal_ledger_project.MarketData.Canonical.{bar_key, canonical_csv_deterministic}

abbrev bar : String → Bar ℕ
bar symbol = record {
  symbol = symbol;
  date = "2024-01-02";
  opening = 1;
  high = 2;
  low = 1;
  closing = 2;
  adj_close = 2;
  volume = pos 5;
}

abbrev forwards : List (Bar ℕ)
forwards = bar "AAA" ∷ bar "BBB" ∷ []

abbrev backwards : List (Bar ℕ)
backwards = bar "BBB" ∷ bar "AAA" ∷ []

abbrev format : Format ℕ
format = record { price = λ x. "2"; integer = λ x. "5" }

apart : bar_key (bar "AAA") ≢ bar_key (bar "BBB")
apart e = let same : true ≡ false = sym (eq_refl "AAA") ∙ ap (λ k. k.0 == "AAA") e in cc

canonical_csv_deterministic_example :
    canonical_csv insertion_sorter format forwards ≡ canonical_csv insertion_sorter format backwards
canonical_csv_deterministic_example =
    canonical_csv_deterministic insertion_sorter format forwards backwards
      ((λ h. elim h [ inl q ↦ apart q | inr z ↦ absurd z ]), ((λ z. absurd z), tt))
      ((λ h. elim h [ inl q ↦ apart (sym q) | inr z ↦ absurd z ]), ((λ z. absurd z), tt))
      (λ b h. elim h [ inl q ↦ inr (inl q) | inr (inl q) ↦ inl q | inr (inr z) ↦ absurd z ])
      (λ b h. elim h [ inl q ↦ inr (inl q) | inr (inl q) ↦ inl q | inr (inr z) ↦ absurd z ])

abbrev request : MarketDataRequest
request = record {
  symbols = "AAA" ∷ "BBB" ∷ [];
  interval = "1d";
  start_date = "2024-01-01";
  end_date = "2024-02-01";
}

abbrev given : Given ℕ
given = record {
  postgres = postgres;
  platform = platform;
  root = "root";
  parse_date = λ date. if date == "2024-01-01" then some (pos 1) else some (pos 32);
  to_date = some;
  encode = λ r. "{}";
  sorter = insertion_sorter;
  format = format;
  bytes_of = λ text. 1 ∷ 2 ∷ [];
  fetch = λ r. ok (record { provider = "stooq"; bars = backwards; retrieved_at = pos 40 });
  job_id = "j1";
  snapshot_id = "m1";
  db_now = pos 41;
  temporary = "temporary";
  name = "name";
}

abbrev world : World ℕ
world = record { db = empty; faults = [] }

abbrev frozen : MarketDataSnapshot
frozen = record {
  id = "m1";
  provider = "stooq";
  symbols = "AAA" ∷ "BBB" ∷ [];
  interval = "1d";
  start_date = "2024-01-01";
  end_date = "2024-02-01";
  storage_key = some "name.csv";
  checksum = some "hash";
  retrieved_at = pos 40;
}

abbrev left : World ℕ × Disk
left = (fetch_snapshot given request world (calm [])).1

fetches : fetch_snapshot given request world (calm []) ≡ (ok frozen, left)
unfolding fetch_snapshot validate_request check_symbols matches_symbol is_symbol_char all_chars
    save_snapshot save_in path_below place insert_market_data_snapshot count_where
fetches = refl

fetch_snapshot-IsFrozen_example : IsFrozen given request (world, calm []) left frozen
fetch_snapshot-IsFrozen_example =
    fetch_snapshot-IsFrozen given request world (calm []) frozen left fetches
