-- ===== src/Store/Backtests/Histories.antt =====
-- A run in the calls of the store that follow its completion.
use signal_ledger_project.Prelude.{
  ℕ, String, ◌≡◌, ◌≢◌, refl, sym, ap, ◌∙◌, subst, Bool, true, false, ◌⊎◌, inl, inr, List, [], ◌∷◌,
  ◌++◌, arith, ◌==◌, eq_iff, eqb, map, contains, count_where, update_where, if◌then◌else◌, In,
  In-append_cases, In-append_left, In-update_where, In-update_where_cases, first-passes, Bool-cases,
}
use signal_ledger_project.Prelude.Float.{Float}
use signal_ledger_project.Domain.Research.{Time}
use signal_ledger_project.Domain.Backtest.{
  RawMessage, BacktestRun, BacktestResult, CreateBacktestInput, validate_input,
}
use signal_ledger_project.Domain.Records.{Job}
use signal_ledger_project.Store.Base.{
  ok, some_or, bind-ok, require-ok, ok-injective, violated_constraint, undecodable, invalid_input,
  invalid_status, not_found,
}
use signal_ledger_project.Store.Tables.{Db}
use signal_ledger_project.Store.Postgres.{Postgres}
use signal_ledger_project.Store.Backtests.{
  in_progress, run_is, with_status, valid_backtest_status, is_none, or_empty_object, enqueue,
  create_backtest_with_run_job, set_backtest_status, complete_backtest,
}
use signal_ledger_project.Store.Backtests.Rankings.{complete-Completed}

-- A run of this id is stored, and none is queued or running.
abbrev IsSettled : String → List BacktestRun → Type 0
IsSettled id runs =
    ((run : BacktestRun) × In run runs × (run.id ≡ id))
    × ((run : BacktestRun)
        → In run runs
        → run.id ≡ id
        → (run.status ≢ "queued") × (run.status ≢ "running"))

count_where-zero :
    (id : String) (runs : List BacktestRun) (run : BacktestRun)
    → count_where (λ r. r.id == id) runs ≡ 0
    → In run runs
    → run.id ≢ id
unfolding count_where
count_where-zero id [] run e h q = absurd h
count_where-zero id (x ∷ runs) run e (inl p) q =
    let same : x.id ≡ id = ap (λ z. z.id) (sym p) ∙ q in
    absurd (ground (arith, e, (eq_iff x.id id).1 same))
count_where-zero id (x ∷ runs) run e (inr h) q =
    count_where-zero id runs run (ground (arith, e)) h q

module _ (id : String) (p : BacktestRun → Bool) (f : BacktestRun → BacktestRun)
    (same_id : (run : BacktestRun) → (f run).id ≡ run.id) where
  -- Under an update that keeps the ids, the run is still stored.
  update_where-stored :
      (runs : List BacktestRun)
      → (run : BacktestRun) × In run runs × (run.id ≡ id)
      → (run : BacktestRun) × In run (update_where p f runs) × (run.id ≡ id)
  update_where-stored runs (run, h, e) = (
    if p run then f run else run,
    In-update_where p f run runs h,
    elim (Bool-cases (p run)) [
      | inl t ↦ subst (λ b. (if b then f run else run).id ≡ id) (sym t) (same_id run ∙ e)
      | inr t ↦ subst (λ b. (if b then f run else run).id ≡ id) (sym t) e
    ],
  )

  -- It is settled if the update settles what it changes and the rest was settled.
  update_where-IsSettled :
      (runs : List BacktestRun)
      → (run : BacktestRun) × In run runs × (run.id ≡ id)
      → ((run : BacktestRun)
          → In run runs
          → run.id ≡ id
          → p run ≡ true
          → ((f run).status ≢ "queued") × ((f run).status ≢ "running"))
      → ((run : BacktestRun)
          → In run runs
          → run.id ≡ id
          → p run ≡ false
          → (run.status ≢ "queued") × (run.status ≢ "running"))
      → IsSettled id (update_where p f runs)
  update_where-IsSettled runs there changed kept = (
    update_where-stored runs there,
    λ run h e.
        let k = In-update_where_cases p f run runs h in
        elim (Bool-cases (p k.0)) [
          | inl t ↦
              let q : run ≡ f k.0 = k.2 ∙ rw t refl in
              subst (λ z. (z.status ≢ "queued") × (z.status ≢ "running")) (sym q)
                (changed k.0 k.1 (sym (same_id k.0) ∙ ap (λ z. z.id) (sym q) ∙ e) t)
          | inr t ↦
              let q : run ≡ k.0 = k.2 ∙ rw t refl in
              subst (λ z. (z.status ≢ "queued") × (z.status ≢ "running")) (sym q)
                (kept k.0 k.1 (ap (λ z. z.id) (sym q) ∙ e) t)
        ],
  )

completed_settled :
    (status : String) → status ≡ "completed" → (status ≢ "queued") × (status ≢ "running")
completed_settled status e = (
  λ q. let t : ("completed" == "queued") ≡ true = (eq_iff _ _).1 (sym e ∙ q) in cc,
  λ q. let t : ("completed" == "running") ≡ true = (eq_iff _ _).1 (sym e ∙ q) in cc,
)

module _ {F : Type 0} (pg : Postgres F) where
  create-runs :
      (json_valid : RawMessage → Bool) (run_id job_id : String) (db_now : Time)
      (input : CreateBacktestInput) (db after : Db F) (run : BacktestRun) (job : Job)
      → create_backtest_with_run_job pg json_valid run_id job_id db_now input db
        ≡ ok (run, job, after)
      → (count_where (λ r. r.id == run_id) db.runs ≡ 0)
        × (run.id ≡ run_id)
        × (after.runs ≡ db.runs ++ run ∷ [])
  unfolding create_backtest_with_run_job
  create-runs json_valid run_id job_id db_now input db after run job h =
      let a = require-ok (is_none (validate_input json_valid input)) invalid_input _ _ h in
      let b = bind-ok (some_or (pg.jsonb (or_empty_object input.parameters)) undecodable) _ _ a.1 in
      let c =
        require-ok (eqb (count_where (λ r. r.id == run_id) db.runs) 0) violated_constraint _ _
          b.2 in
      let d =
        require-ok (contains (map (λ s. s.id) db.strategies) input.strategy_id) violated_constraint
          _ _ c.1 in
      let e =
        require-ok (contains (map (λ s. s.id) db.snapshots) input.snapshot_id) violated_constraint _
          _ d.1 in
      let g =
        bind-ok
          (enqueue pg job_id db_now "run_backtest" (pg.id_payload "backtest_id" run_id) db.jobs) _ _
          e.1 in
      let same = ok-injective _ _ g.2 in
      (
        ground (arith, c.0),
        sym (ap (λ r. r.0.id) same),
        sym (ap (λ r. r.2.runs) same) ∙ ap (λ r. db.runs ++ r ∷ []) (ap (λ r. r.0) same),
      )

set_status-runs :
    {F : Type 0} (other status : String) (db after : Db F)
    → set_backtest_status other status db ≡ ok after
    → after.runs ≡ update_where (run_is other) (with_status status) db.runs
unfolding set_backtest_status
set_status-runs other status db after h =
    let a = require-ok (valid_backtest_status status) invalid_status _ _ h in
    let b = require-ok (eqb (count_where (run_is other) db.runs) 1) not_found _ _ a.1 in
    sym (ap (λ d. d.runs) (ok-injective _ _ b.1))

-- A history of calls that create runs, complete runs and set their status, except that none sets this
-- run back to queued or running.
pub data Since {F : Type 0} (id : String) (db : Db F) : Db F → Type 0 where
  start : Since id db db
  creating :
      {mid last : Db F}
      → Since id db mid
      → (pg : Postgres F) (json_valid : RawMessage → Bool) (run_id job_id : String) (db_now : Time)
        (input : CreateBacktestInput) (run : BacktestRun) (job : Job)
      → create_backtest_with_run_job pg json_valid run_id job_id db_now input mid
        ≡ ok (run, job, last)
      → Since id db last
  completing :
      {mid last : Db F}
      → Since id db mid
      → (fl : Float F) (pg : Postgres F) (fresh : ℕ → String) (db_now : Time) (other : String)
        (result : BacktestResult F) (artifact_key : String)
      → complete_backtest fl pg fresh db_now other result artifact_key mid ≡ ok last
      → Since id db last
  marking :
      {mid last : Db F}
      → Since id db mid
      → (other status : String) → (other ≡ id → (status ≢ "queued") × (status ≢ "running"))
      → set_backtest_status other status mid ≡ ok last
      → Since id db last

module _ {F : Type 0} (id : String) where
  complete-IsSettled :
      (fl : Float F) (pg : Postgres F) (fresh : ℕ → String) (db_now : Time) (other : String)
      (result : BacktestResult F) (artifact_key : String) (db after : Db F)
      → (other ≡ id) ⊎ IsSettled id db.runs
      → complete_backtest fl pg fresh db_now other result artifact_key db ≡ ok after
      → IsSettled id after.runs
  complete-IsSettled fl pg fresh db_now other result artifact_key db after before h =
      let c = complete-Completed fl pg fresh db_now other result artifact_key db after h in
      let found = first-passes (in_progress other) c.run db.runs c.found in
      subst (IsSettled id) (sym c.runs) (
        update_where-IsSettled id (in_progress other) _ (λ run. refl) db.runs
          (elim before [
            | inl e ↦ (
              c.run,
              found.0,
              (eq_iff c.run.id id).0
                  (ground (arith, found.1, eq_iff c.run.id other, eq_iff c.run.id id, e)),
            )
            | inr s ↦ s.0
          ])
          (λ run m e t. completed_settled _ refl)
          (λ run m e t. elim before [
            | inl q ↦ (
              λ k.
                  ground (
                    arith,
                    t,
                    (eq_iff run.status "queued").1 k,
                    (eq_iff run.id other).1 (e ∙ sym q),
                  ),
              λ k. ground (
                arith,
                t,
                (eq_iff run.status "running").1 k,
                (eq_iff run.id other).1 (e ∙ sym q),
              ),
            )
            | inr s ↦ s.1 run m e
          ]))

  Since-IsSettled :
      {db later : Db F} → Since id db later → IsSettled id db.runs → IsSettled id later.runs
  Since-IsSettled start s = s
  Since-IsSettled (creating {mid} {last} path pg json_valid run_id job_id db_now input run job e)
        s =
      let (there, settled) = Since-IsSettled path s in
      let (fresh, named, table) =
        create-runs pg json_valid run_id job_id db_now input mid last run job e in
      subst (IsSettled id) (sym table) (
        (there.0, In-append_left there.0 mid.runs _ there.1, there.2),
        λ r h q. elim (In-append_cases r mid.runs _ h) [
          | inl old ↦ settled r old q
          | inr (inl new) ↦ absurd (
              count_where-zero run_id mid.runs there.0 fresh there.1
                (there.2 ∙ sym q ∙ ap (λ z. z.id) new ∙ named))
          | inr (inr z) ↦ absurd z
        ],
      )
  Since-IsSettled (completing {mid} {last} path fl pg fresh db_now other result artifact_key e) s =
      complete-IsSettled fl pg fresh db_now other result artifact_key mid last
        (inr (Since-IsSettled path s)) e
  Since-IsSettled (marking {mid} {last} path other status allowed e) s =
      let (there, settled) = Since-IsSettled path s in
      subst (IsSettled id) (sym (set_status-runs other status mid last e)) (
        update_where-IsSettled id (run_is other) (with_status status) (λ run. refl) mid.runs there
          (λ run m q t. allowed (sym ((eq_iff run.id other).0 t) ∙ q))
          (λ run m q t. settled run m q))

  -- A run is completed once, unless it is set back: after CompleteBacktest has succeeded for a run, and
  -- any further calls that create runs, complete runs or set their status, of which none sets this run
  -- to queued or running, CompleteBacktest does not succeed for it again, whatever result it brings.
  pub complete-once :
      (fl : Float F) (pg : Postgres F) (fresh : ℕ → String) (db_now : Time)
      (result : BacktestResult F) (artifact_key : String) (db after : Db F)
      → complete_backtest fl pg fresh db_now id result artifact_key db ≡ ok after
      → (later : Db F) → Since id after later
      → (fresh' : ℕ → String) (now : Time) (other : BacktestResult F) (other_key : String)
        (again : Db F)
      → complete_backtest fl pg fresh' now id other other_key later ≢ ok again
  complete-once fl pg fresh db_now result artifact_key db after h later path fresh' now other
        other_key again k =
      let s =
        Since-IsSettled path
          (complete-IsSettled fl pg fresh db_now id result artifact_key db after (inl refl) h) in
      let c = complete-Completed fl pg fresh' now id other other_key later again k in
      let found = first-passes (in_progress id) c.run later.runs c.found in
      let named : c.run.id ≡ id = ground (arith, found.1, eq_iff c.run.id id) in
      let ended = s.1 c.run found.0 named in
      ground (arith, found.1, ended, eq_iff c.run.status "queued", eq_iff c.run.status "running")
