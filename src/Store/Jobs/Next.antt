-- ===== src/Store/Jobs/Next.antt =====
-- The row that `LeaseNextJob` takes, in the terms of the code.
use signal_ledger_project.Prelude.{
  ℕ, ◌+◌, String, ◌≡◌, ◌≢◌, refl, sym, ap, subst, ◌∙◌, Bool, true, false, not, ◌&&◌, ◌⊎◌, inl, inr,
  Option, none, some, List, [], ◌∷◌, map, arith, ◌==◌, update_where, Bool-cases, Option-cases, In,
  Distinct, In-map,
}
use signal_ledger_project.Prelude.Int.{pos, ◌+ℤ◌}
use signal_ledger_project.Domain.Research.{Time}
use signal_ledger_project.Store.Tables.{JobRow}
use signal_ledger_project.Store.Jobs.{
  Rows, eligible, earlier, pick, next_job, lease, lease_next_job, job_of,
}

abbrev pub ids : Rows → List String
ids = map (λ row. row.id)

pub row_unique :
    (rows : Rows) (r s : JobRow) → Distinct (ids rows) → In r rows → In s rows → r.id ≡ s.id → r ≡ s
row_unique [] r s d h k e = absurd h
row_unique (x ∷ rows) r s d (inl p) (inl q) e = p ∙ sym q
row_unique (x ∷ rows) r s d (inl p) (inr k) e = absurd (
    d.0 (subst (λ t. In t (ids rows)) (sym e ∙ ap (λ t. t.id) p) (In-map (λ row. row.id) s rows k)))
row_unique (x ∷ rows) r s d (inr h) (inl q) e =
    absurd
      (d.0 (subst (λ t. In t (ids rows)) (e ∙ ap (λ t. t.id) q) (In-map (λ row. row.id) r rows h)))
row_unique (x ∷ rows) r s d (inr h) (inr k) e = row_unique rows r s d.1 h k e

-- A row that may be taken.
abbrev pub IsFree : (String → Bool) → Time → JobRow → Type 0
IsFree locked db_now row = (eligible db_now row ≡ true) × (locked row.id ≡ false)

pub record IsNext (locked : String → Bool) (db_now : Time) (rows : Rows) (row : JobRow)
    : Type 0 where
  pub inside : In row rows
  pub free : IsFree locked db_now row
  pub first : (r : JobRow) → In r rows → IsFree locked db_now r → earlier r row ≡ false

earlier_trans : (a b c : JobRow) → earlier a b ≡ true → earlier b c ≡ true → earlier a c ≡ true
unfolding earlier
earlier_trans a b c h k = ground arith

earlier_irrefl : (a : JobRow) → earlier a a ≡ false
unfolding earlier
earlier_irrefl a = ground arith

next_job-ne-none :
    (locked : String → Bool) (db_now : Time) (rows : Rows) (r : JobRow)
    → In r rows
    → IsFree locked db_now r
    → next_job locked db_now rows ≢ none
unfolding next_job
next_job-ne-none locked db_now [] r h f = absurd h
next_job-ne-none locked db_now (row ∷ rows) r (inl p) f =
    let g : IsFree locked db_now row = subst (IsFree locked db_now) p f in λ e. ground (arith, g)
next_job-ne-none locked db_now (row ∷ rows) r (inr h) f =
    let ih = next_job-ne-none locked db_now rows r h f in λ e. ground (arith, ih)

IsNext-later :
    (locked : String → Bool) (db_now : Time) (x : JobRow) (rows : Rows) (row : JobRow)
    → (IsFree locked db_now x → earlier x row ≡ false)
    → IsNext locked db_now rows row
    → IsNext locked db_now (x ∷ rows) row
IsNext-later locked db_now x rows row first v = record {
  inside = inr v.inside;
  free = v.free;
  first = λ r h f. elim h [
    | inl p ↦ subst (λ t. earlier t row ≡ false) (sym p) (first (subst (IsFree locked db_now) p f))
    | inr k ↦ v.first r k f
  ];
}

IsNext-here :
    (locked : String → Bool) (db_now : Time) (x : JobRow) (rows : Rows)
    → IsFree locked db_now x
    → ((r : JobRow) → In r rows → IsFree locked db_now r → earlier r x ≡ false)
    → IsNext locked db_now (x ∷ rows) x
IsNext-here locked db_now x rows free first = record {
  inside = inl refl;
  free = free;
  first = λ r h f. elim h [
    | inl p ↦ subst (λ t. earlier t x ≡ false) (sym p) (earlier_irrefl x)
    | inr k ↦ first r k f
  ];
}

pick-IsNext :
    (locked : String → Bool) (db_now : Time) (x : JobRow) (rows : Rows) (rest : Option JobRow)
    (free : Bool) (row : JobRow)
    → next_job locked db_now rows ≡ rest
    → (eligible db_now x && not (locked x.id)) ≡ free
    → ((best : JobRow) → rest ≡ some best → IsNext locked db_now rows best)
    → pick free x rest ≡ some row
    → IsNext locked db_now (x ∷ rows) row
unfolding pick
pick-IsNext locked db_now x rows none true row e f ih p =
    subst (IsNext locked db_now (x ∷ rows)) (ground arith) (
      IsNext-here locked db_now x rows (ground arith)
        (λ r h g. absurd (next_job-ne-none locked db_now rows r h g e)))
pick-IsNext locked db_now x rows none false row e f ih p = cc
pick-IsNext locked db_now x rows (some best) false row e f ih p =
    subst (IsNext locked db_now (x ∷ rows)) (ground arith)
      (IsNext-later locked db_now x rows best (λ g. ground arith) (ih best refl))
pick-IsNext locked db_now x rows (some best) true row e f ih p =
    elim (Bool-cases (earlier x best)) [
      | inl sooner ↦ subst (IsNext locked db_now (x ∷ rows)) (ground arith) (
          IsNext-here locked db_now x rows (ground arith) (λ r h g.
            elim (Bool-cases (earlier r x)) [
              | inl k ↦ cc (earlier_trans r x best k sooner, (ih best refl).first r h g)
              | inr k ↦ k
            ]))
      | inr later ↦
          subst (IsNext locked db_now (x ∷ rows)) (ground arith)
            (IsNext-later locked db_now x rows best (λ g. later) (ih best refl))
    ]

next_job-IsNext :
    (locked : String → Bool) (db_now : Time) (rows : Rows) (row : JobRow)
    → next_job locked db_now rows ≡ some row
    → IsNext locked db_now rows row
unfolding next_job
next_job-IsNext locked db_now [] row e = cc
next_job-IsNext locked db_now (x ∷ rows) row e =
    pick-IsNext locked db_now x rows (next_job locked db_now rows) _ row refl refl
      (next_job-IsNext locked db_now rows) e

-- What a lease call does, in the terms of the code.
pub lease_next_job-row :
    (locked : String → Bool) (db_now worker_now : Time) (worker : String) (duration : ℕ)
    (rows : Rows)
    → (((r : JobRow) → In r rows → ¬ IsFree locked db_now r)
        × (lease_next_job locked db_now worker_now worker duration rows ≡ (none, rows)))
      ⊎ ((row : JobRow) × IsNext locked db_now rows row
          × (lease_next_job locked db_now worker_now worker duration rows ≡ (
            some (record (job_of row) { attempts = row.attempts + 1 }),
            update_where (λ r. r.id == row.id) (lease worker (worker_now +ℤ pos duration)) rows,
          )))
unfolding lease_next_job
lease_next_job-row locked db_now worker_now worker duration rows =
    elim (Option-cases (next_job locked db_now rows)) [
      | inl e ↦ inl (λ r h f. next_job-ne-none locked db_now rows r h f e, rw (e, lease_next_job))
      | inr (row, e) ↦ inr (row, next_job-IsNext locked db_now rows row e, rw (e, lease_next_job))
    ]
