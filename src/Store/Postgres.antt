-- ===== src/Store/Postgres.antt =====
-- What the statements use of PostgreSQL and of `encoding/json` that no code of the repository
-- defines: parameters.
use signal_ledger_project.Prelude.{ℕ, String, Bool, Option, List}
use signal_ledger_project.Domain.Research.{Time}
use signal_ledger_project.Domain.Backtest.{RawMessage}

pub record Postgres (F : Type 0) : Type 0 where
  pub jsonb : RawMessage → Option RawMessage  -- a cast to jsonb and back to text; `none` is an error
  pub set_version : ℕ → RawMessage → RawMessage  -- jsonb_set(_, '{version}', to_jsonb(_))
  pub numeric : F → F  -- a float64 stored in a NUMERIC(4, 3) and read back
  pub accepts : List ℕ → Bool  -- whether these bytes are valid text in the encoding of the database
  pub char64 : String → Option String  -- a text stored in a CHAR(64) and read back; `none` is an error
  pub date : Time → Time  -- a time stored in a DATE and read back
  pub id_payload : String → String → RawMessage  -- json.Marshal of an object with one text field
