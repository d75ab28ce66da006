-- ===== src/Quant.antt =====
-- internal/quant: the client of the quant service, which answers over HTTP. The transport, and the
-- codecs of `encoding/json`, are parameters.
pub mod Extracting
pub mod MarketData
pub mod Backtests
pub mod Ranking
pub mod Accepted
pub mod Extracted
use Prim.Native.String.{◌++◌ as append}
use signal_ledger_project.Prelude.{
  ℕ, zero, suc, String, Bool, ◌&&◌, Option, none, some, List, [], ◌∷◌, ltb, leb, eqb, length,
  if◌then◌else◌,
}
use signal_ledger_project.Prelude.Strings.{trim_right}
use signal_ledger_project.Domain.Backtest.{RawMessage}
use signal_ledger_project.Store.Base.{
  Result, ok, err, ◌>>=◌, ◌>>◌, require, some_or, unavailable, undecodable, invalid_input,
  too_large, bad_status,
}

-- 20 << 20
abbrev pub max_response_bytes : ℕ
max_response_bytes = 20971520

-- A response: its status code, and a body that ends or breaks off after these bytes.
pub record Response : Type 0 where
  pub status_code : ℕ
  pub body : List ℕ
  pub breaks : Bool

-- Client; `post` sends a JSON payload to a URL, and has no response if the request cannot be made
-- or the call fails.
pub record Client : Type 0 where
  pub base_url : String
  pub post : String → RawMessage → Option Response

abbrev is_slash : ℕ → Bool
is_slash c = eqb c b'/'

-- NewClient
unfoldable pub new_client : String → (String → RawMessage → Option Response) → Client
new_client base_url post = record { base_url = trim_right is_slash base_url; post = post }

abbrev pub take : {A : Type 0} → ℕ → List A → List A
take n [] = []
take zero (x ∷ xs) = []
take (suc n) (x ∷ xs) = x ∷ take n xs

-- io.ReadAll of a body that is limited to one byte more than the maximum: a body that breaks off
-- behind the limit is not read so far.
unfoldable pub read_body : Response → Result (List ℕ)
read_body response =
    if ltb max_response_bytes (length response.body)
    then ok (take (suc max_response_bytes) response.body)
    else if response.breaks
    then err unavailable
    else ok response.body

-- The checks of the response that the three calls make.
unfoldable pub checked_body : Response → Result (List ℕ)
unfolding read_body
checked_body response = do
  body ← read_body response
  require (leb (length body) max_response_bytes) too_large
  require (leb 200 response.status_code && ltb response.status_code 300) bad_status
  ok body

-- A call: the payload is encoded, sent, and the response is checked and decoded.
unfoldable pub exchange :
    {A : Type 0} → Client → String → Option RawMessage → (List ℕ → Option A) → Result A
exchange client path encoded decode = do
  payload ← some_or encoded invalid_input
  response ← some_or (client.post (append client.base_url path) payload) unavailable
  body ← checked_body response
  some_or (decode body) undecodable
