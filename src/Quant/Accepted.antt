-- ===== src/Quant/Accepted.antt =====
-- When a call of the quant service succeeds, and what it then returns.
use Prim.Native.String.{len, ◌++◌ as append}
use signal_ledger_project.Prelude.{
  ℕ, zero, suc, ◌≤◌, ◌<◌, String, ◌≡◌, ◌≢◌, refl, sym, ap, ◌∙◌, subst, Bool, true, false, ◌&&◌,
  ◌||◌, not, inl, inr, ◌↔◌, Option, some, List, [], ◌∷◌, arith, All, eq_iff, ◌==◌, if◌then◌else◌,
  Bool-cases, length, ltb, leb, le→leb, eqb,
}
use signal_ledger_project.Prelude.Float.{Float}
use signal_ledger_project.Domain.Research.{Time}
use signal_ledger_project.Domain.Backtest.{RawMessage, BacktestRequest, BacktestResult}
use signal_ledger_project.Domain.Ranked.{IsRanking}
use signal_ledger_project.Store.Base.{
  Result, ok, err, invalid_response, invalid_input, unavailable, too_large, bad_status, some_or,
  require, ◌>>◌, ok-injective, bind-ok, require-ok, some_or-ok,
}
use signal_ledger_project.Quant.{
  Response, Client, max_response_bytes, take, read_body, checked_body, exchange,
}
use signal_ledger_project.Quant.Backtests.{
  WireRequest, WireResponse, wire_request, decode_set, to_result, run_backtest,
}
use signal_ledger_project.Quant.Ranking.{IsIdentified, decode_set-ok}

length-take : (n : ℕ) (xs : List ℕ) → n ≤ length xs → length (take n xs) ≡ n
length-take zero [] h = refl
length-take zero (x ∷ xs) h = refl
length-take (suc n) [] h = absurd (omega arith)
length-take (suc n) (x ∷ xs) h = omega (arith, length-take n xs)

-- A response with a status of success, and with a whole body of at most 20 MiB.
pub record IsComplete (response : Response) : Type 0 where
  pub status_class : (200 ≤ response.status_code) × (response.status_code < 300)
  pub size : length response.body ≤ max_response_bytes
  pub whole : response.breaks ≡ false

module _ (response : Response) where
  -- The body that the checks are made on, by its size.
  read_large :
      max_response_bytes < length response.body
      → read_body response ≡ ok (take (suc max_response_bytes) response.body)
  unfolding read_body
  read_large h = ground arith

  read_small :
      length response.body ≤ max_response_bytes
      → read_body response ≡ (if response.breaks then err unavailable else ok response.body)
  unfolding read_body
  read_small h = ground arith

  -- The checks of a body that was read.
  checks : List ℕ → Result (List ℕ)
  checks body =
      require (leb (length body) max_response_bytes) too_large
      >> (require (leb 200 response.status_code && ltb response.status_code 300) bad_status
          >> ok body)

  checks-ok :
      (body out : List ℕ)
      → checks body ≡ ok out
      → (length body ≤ max_response_bytes)
        × ((200 ≤ response.status_code) × (response.status_code < 300))
        × (body ≡ out)
  unfolding checks
  checks-ok body out h =
      let a = require-ok (leb (length body) max_response_bytes) too_large _ out h in
      let b =
        require-ok (leb 200 response.status_code && ltb response.status_code 300) bad_status _ out
          a.1 in
      (ground (arith, a.0), (ground (arith, b.0), ground (arith, b.0)), ok-injective _ _ b.1)

  checked_body-ok :
      (body : List ℕ)
      → checked_body response ≡ ok body
      → IsComplete response × (response.body ≡ body)
  unfolding checked_body checks
  checked_body-ok body h =
      let a = bind-ok (read_body response) checks body h in
      let c = checks-ok a.0 body a.2 in
      elim (Bool-cases (ltb max_response_bytes (length response.body))) [
        | inl large ↦
            let e = ok-injective _ _ (sym a.1 ∙ read_large (ground (arith, large))) in
            absurd (
              omega (
                arith,
                c.0,
                ap length e,
                length-take (suc max_response_bytes) response.body (ground (arith, large)),
              ))
        | inr small ↦
            let s : length response.body ≤ max_response_bytes = ground (arith, small) in
            let r = whole response.breaks a.0 (sym (read_small s) ∙ a.1) in
            (record { status_class = c.1; size = s; whole = r.0 }, r.1 ∙ c.2)
      ]
    where
      whole :
          (b : Bool) (read : List ℕ)
          → (if b then err unavailable else ok response.body) ≡ ok read
          → (b ≡ false) × (response.body ≡ read)
      whole true read e = cc
      whole false read e = (refl, ok-injective _ _ e)

  checked_body_complete : IsComplete response → checked_body response ≡ ok response.body
  unfolding checked_body
  checked_body_complete c =
      let fits : leb (length response.body) max_response_bytes ≡ true = le→leb _ _ c.size in
      let fine : leb 200 response.status_code && ltb response.status_code 300 ≡ true =
        ground (arith, c.status_class.0, c.status_class.1) in
      rw (read_small c.size, c.whole, fits, fine) refl

module _ {A : Type 0} (client : Client) (path : String) (encoded : Option RawMessage)
    (decode : List ℕ → Option A) where
  -- A payload was sent, and its response is complete and decodes.
  pub record IsAnswer (a : A) : Type 0 where
    pub payload : RawMessage
    pub sent : encoded ≡ some payload
    pub response : Response
    pub received : client.post (append client.base_url path) payload ≡ some response
    pub complete : IsComplete response
    pub decoded : decode response.body ≡ some a

  -- A call succeeds exactly if its payload can be encoded, a response of success arrives whole and
  -- with 20 MiB at most, and it decodes; the call returns what it decodes to.
  pub exchange_iff : (a : A) → (exchange client path encoded decode ≡ ok a) ↔ IsAnswer a
  unfolding exchange
  exchange_iff a = (
    λ h.
        let p = bind-ok (some_or encoded invalid_input) _ a h in
        let r =
          bind-ok (some_or (client.post (append client.base_url path) p.0) unavailable) _ a p.2 in
        let b = bind-ok (checked_body r.0) _ a r.2 in
        let c = checked_body-ok r.0 b.0 b.1 in
        record {
          payload = p.0;
          sent = some_or-ok _ _ _ p.1;
          response = r.0;
          received = some_or-ok _ _ _ r.1;
          complete = c.0;
          decoded = ap decode c.1 ∙ some_or-ok _ _ _ b.2;
        },
    λ k. rw (k.sent, k.received, checked_body_complete k.response k.complete, k.decoded) refl,
  )

module _ {F : Type 0} (fl : Float F) (parse_date : String → Option Time) where
  -- The checks of `to_result`, and what it returns.
  pub to_result-ok :
      (response : WireResponse F) (result : BacktestResult F)
      → to_result fl parse_date response ≡ ok result
      → ((len result.result_checksum ≡ 64)
          × (result.engine_version ≢ "")
          × (result.equity_curve_csv ≢ ""))
        × IsRanking fl result.candidates
        × All IsIdentified result.candidates.positions
  unfolding to_result
  to_result-ok response result h =
      let a =
        require-ok
          (not (
            not (eqb (len response.checksum) 64)
            || response.engine_version == ""
            || response.equity_curve_csv == ""))
          invalid_response _ result h in
      let b = bind-ok (decode_set fl parse_date response.candidates) _ result a.1 in
      let d = decode_set-ok fl parse_date response.candidates b.0 b.1 in
      let checked : (len response.checksum ≡ 64)
          × (response.engine_version ≢ "")
          × (response.equity_curve_csv ≢ "") =
        ground
          (arith, a.0, eq_iff response.engine_version "", eq_iff response.equity_curve_csv "") in
      subst
        (λ r.
          ((len r.result_checksum ≡ 64) × (r.engine_version ≢ "") × (r.equity_curve_csv ≢ ""))
          × IsRanking fl r.candidates
          × All IsIdentified r.candidates.positions)
        (ok-injective _ _ b.2) (checked, d.0, d.1)

  -- A backtest that RunBacktest returns came in a complete response of success to the request, whose
  -- empty parameters are sent as an empty object; its checksum has 64 bytes, its engine version and
  -- its equity curve are not empty, and its candidates are a ranking in which every piece of evidence
  -- names its claim.
  pub run_backtest-ok :
      (client : Client) (encode : WireRequest F → Option RawMessage)
      (decode : List ℕ → Option (WireResponse F)) (request : BacktestRequest F)
      (result : BacktestResult F)
      → run_backtest fl parse_date client encode decode request ≡ ok result
      → ((response : WireResponse F) × IsAnswer client "/v1/backtests"
            (encode (wire_request request))
            decode
            response
          × (to_result fl parse_date response ≡ ok result))
        × ((len result.result_checksum ≡ 64)
            × (result.engine_version ≢ "")
            × (result.equity_curve_csv ≢ ""))
        × IsRanking fl result.candidates
        × All IsIdentified result.candidates.positions
  unfolding run_backtest
  run_backtest-ok client encode decode request result h =
      let path : String = "/v1/backtests" in
      let a = bind-ok (exchange client path (encode (wire_request request)) decode) _ result h in
      let r = to_result-ok a.0 result a.2 in
      (
        (a.0, (exchange_iff client path (encode (wire_request request)) decode a.0).0 a.1, a.2),
        r.0,
        r.1,
        r.2,
      )
