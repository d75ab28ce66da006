-- ===== src/Worker/Effects.antt =====
-- The effects of the worker: every call of the store or of a service may fail for reasons of its
-- own, which a schedule of faults decides. A call that fails in this way changes nothing, and a change
-- that a call made stays when a later one fails.
use signal_ledger_project.Prelude.{Bool, true, false, List, [], ◌∷◌, ◌≡◌, ◌≢◌, refl, ap, sym}
use signal_ledger_project.Store.Base.{Error, Result, ok, err, ok-injective, unavailable}
use signal_ledger_project.Store.Tables.{Db}

-- The tables, and for each call still to come whether it fails; after the end of the list none does.
pub record World (F : Type 0) : Type 0 where
  pub db : Db F
  pub faults : List Bool

abbrev pub Step : Type 0 → Type 0 → Type 0
Step F A = World F → Result A × World F

module _ {F : Type 0} where
  abbrev pub give : {A : Type 0} → A → Step F A
  give a world = (ok a, world)

  abbrev pub fail : {A : Type 0} → Error → Step F A
  fail e world = (err e, world)

  abbrev and_then : {A B : Type 0} → Result A × World F → (A → Step F B) → Result B × World F
  and_then (ok a, world) f = f a world
  and_then (err e, world) f = (err e, world)

  infixl 5 ◌>>=◌ ◌>>◌
  abbrev pub ◌>>=◌ : {A B : Type 0} → Step F A → (A → Step F B) → Step F B
  m >>= f = λ world. and_then (m world) f

  abbrev pub ◌>>◌ : {B : Type 0} → Step F (Unit {0}) → Step F B → Step F B
  m >> k = m >>= λ _. k

  abbrev and_handle : {A : Type 0} → Result A × World F → (Error → Step F A) → Result A × World F
  and_handle (ok a, world) handle = (ok a, world)
  and_handle (err e, world) handle = handle e world

  -- An early return through `handle`.
  abbrev pub rescue : {A : Type 0} → Step F A → (Error → Step F A) → Step F A
  rescue m handle = λ world. and_handle (m world) handle

  abbrev settle : {A : Type 0} → Result (A × Db F) → World F → Result A × World F
  settle (ok (a, db)) world = (ok a, record world { db = db })
  settle (err e) world = (err e, world)

  abbrev next_call :
      {A : Type 0} → List Bool → (Db F → Result (A × Db F)) → Db F → Result A × World F
  next_call [] f db = settle (f db) (record { db = db; faults = [] })
  next_call (true ∷ faults) f db = (err unavailable, record { db = db; faults = faults })
  next_call (false ∷ faults) f db = settle (f db) (record { db = db; faults = faults })

  -- One call on the tables: a fault, or a transaction.
  abbrev pub call : {A : Type 0} → (Db F → Result (A × Db F)) → Step F A
  call f world = next_call world.faults f world.db

  abbrev and_keep : {A : Type 0} → Result A → Db F → Result (A × Db F)
  and_keep (ok a) db = ok (a, db)
  and_keep (err e) db = err e

  -- A call that reads.
  abbrev pub query : {A : Type 0} → (Db F → Result A) → Step F A
  query f = call (λ db. and_keep (f db) db)

  abbrev only_db : Result (Db F) → Result (Unit {0} × Db F)
  only_db (ok db) = ok (tt, db)
  only_db (err e) = err e

  -- A call that only changes the tables.
  abbrev pub command : (Db F → Result (Db F)) → Step F (Unit {0})
  command f = call (λ db. only_db (f db))

  abbrev pub lift : {A : Type 0} → Result A → Step F A
  lift r world = (r, world)

-- What a step that succeeds has gone through.
module _ {F A B : Type 0} where
  and_then-ok :
      (r : Result A × World F) (f : A → Step F B) (after : World F) (b : B)
      → and_then r f ≡ (ok b, after)
      → (a : A) × (between : World F) × (r ≡ (ok a, between)) × (f a between ≡ (ok b, after))
  and_then-ok (ok a, between) f after b h = (a, between, refl, h)
  and_then-ok (err e, between) f after b h = cc

  pub bind-ok :
      (m : Step F A) (f : A → Step F B) (w after : World F) (b : B)
      → (m >>= f) w ≡ (ok b, after)
      → (a : A) × (between : World F) × (m w ≡ (ok a, between)) × (f a between ≡ (ok b, after))
  bind-ok m f w after b h = and_then-ok (m w) f after b h

module _ {F A : Type 0} where
  and_handle-ok :
      (r : Result A × World F) (handle : Error → Step F A) (after : World F) (a : A)
      → ((e : Error) (w : World F) → (handle e w).0 ≢ ok a)
      → and_handle r handle ≡ (ok a, after)
      → r ≡ (ok a, after)
  and_handle-ok (ok a', between) handle after a n h = h
  and_handle-ok (err e, between) handle after a n h = absurd (n e between (ap (λ r. r.0) h))

  pub rescue-ok :
      (m : Step F A) (handle : Error → Step F A) (w after : World F) (a : A)
      → ((e : Error) (w : World F) → (handle e w).0 ≢ ok a)
      → rescue m handle w ≡ (ok a, after)
      → m w ≡ (ok a, after)
  rescue-ok m handle w after a n h = and_handle-ok (m w) handle after a n h

  settle-ok :
      (r : Result (A × Db F)) (w after : World F) (a : A)
      → settle r w ≡ (ok a, after)
      → r ≡ ok (a, after.db)
  settle-ok (ok (x, db)) w after a h = ap ok (cc (ap (λ r. r.1.db) h, ap (λ r. r.0) h))
  settle-ok (err e) w after a h = cc

  next_call-ok :
      (faults : List Bool) (f : Db F → Result (A × Db F)) (db : Db F) (after : World F) (a : A)
      → next_call faults f db ≡ (ok a, after)
      → f db ≡ ok (a, after.db)
  next_call-ok [] f db after a h = settle-ok (f db) _ after a h
  next_call-ok (true ∷ faults) f db after a h = cc
  next_call-ok (false ∷ faults) f db after a h = settle-ok (f db) _ after a h

  pub call-ok :
      (f : Db F → Result (A × Db F)) (w after : World F) (a : A)
      → call f w ≡ (ok a, after)
      → f w.db ≡ ok (a, after.db)
  call-ok f w after a h = next_call-ok w.faults f w.db after a h

  pub query-ok :
      (f : Db F → Result A) (w after : World F) (a : A)
      → query f w ≡ (ok a, after)
      → (f w.db ≡ ok a) × (after.db ≡ w.db)
  query-ok f w after a h = kept (f w.db) (call-ok (λ db. and_keep (f db) db) w after a h)
    where
      kept : (r : Result A) → and_keep r w.db ≡ ok (a, after.db) → (r ≡ ok a) × (after.db ≡ w.db)
      kept (ok x) e =
          (let same = ok-injective _ _ e in (ap (λ r. ok r.0) same, sym (ap (λ r. r.1) same)))
      kept (err x) e = cc

module _ {F : Type 0} where
  pub command-ok :
      (f : Db F → Result (Db F)) (w after : World F)
      → command f w ≡ (ok tt, after)
      → f w.db ≡ ok after.db
  command-ok f w after h = changed (f w.db) (call-ok (λ db. only_db (f db)) w after tt h)
    where
      changed : (r : Result (Db F)) → only_db r ≡ ok (tt, after.db) → r ≡ ok after.db
      changed (ok db) e = ap (λ r. ok r.1) (ok-injective _ _ e)
      changed (err x) e = cc
