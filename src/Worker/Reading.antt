-- ===== src/Worker/Reading.antt =====
-- Steps that change no table, whatever their outcome.
use signal_ledger_project.Prelude.{◌≡◌, refl, sym, ap, ◌∙◌, Bool, true, false, List, [], ◌∷◌}
use signal_ledger_project.Store.Base.{Error, Result, ok, err}
use signal_ledger_project.Store.Tables.{Db}
use signal_ledger_project.Worker.Effects.{World, Step, give, fail, ◌>>=◌, call, query, lift}

abbrev pub IsReading : {F A : Type 0} → Step F A → Type 0
IsReading {F = F} m = (w : World F) → (m w).1.db ≡ w.db

module _ {F : Type 0} where
  pub give-IsReading : {A : Type 0} (a : A) → IsReading {F = F} (give a)
  give-IsReading a w = refl

  pub fail-IsReading : (A : Type 0) (e : Error) → IsReading {F = F} {A = A} (fail e)
  fail-IsReading A e w = refl

  pub lift-IsReading : {A : Type 0} (r : Result A) → IsReading {F = F} (lift r)
  lift-IsReading r w = refl

  pub query-IsReading : {A : Type 0} (f : Db F → Result A) → IsReading (query f)
  query-IsReading {A = A} f w = by_faults w.faults (f w.db) refl
    where
      by_faults :
          (faults : List Bool) (r : Result A)
          → f w.db ≡ r
          → (query f (record { db = w.db; faults = faults })).1.db ≡ w.db
      by_faults [] (ok a) e = rw e refl
      by_faults [] (err x) e = rw e refl
      by_faults (true ∷ faults) r e = refl
      by_faults (false ∷ faults) (ok a) e = rw e refl
      by_faults (false ∷ faults) (err x) e = rw e refl

  -- A call that fails changes no table.
  pub call-err :
      {A : Type 0} (f : Db F → Result (A × Db F)) (w after : World F) (e : Error)
      → call f w ≡ (err e, after)
      → after.db ≡ w.db
  call-err {A = A} f w after e h = by_faults w.faults (f w.db) refl h
    where
      by_faults :
          (faults : List Bool) (r : Result (A × Db F))
          → f w.db ≡ r
          → call f (record { db = w.db; faults = faults }) ≡ (err e, after)
          → after.db ≡ w.db
      by_faults [] (ok (a, db)) d h = cc
      by_faults [] (err x) d h = cc
      by_faults (true ∷ faults) r d h = sym (ap (λ v. v.1.db) h)
      by_faults (false ∷ faults) (ok (a, db)) d h = cc
      by_faults (false ∷ faults) (err x) d h = cc

module _ {F A B : Type 0} where
  pub bind-IsReading :
      (m : Step F A) (f : A → Step F B)
      → IsReading m
      → ((a : A) → IsReading (f a))
      → IsReading (m >>= f)
  bind-IsReading m f h k w = by_result (m w) (h w)
    where
      by_result : (r : Result A × World F) → r.1.db ≡ w.db → (((λ v. r) >>= f) w).1.db ≡ w.db
      by_result (ok a, between) e = k a between ∙ e
      by_result (err x, between) e = e
