-- ===== src/RewardAccounts/Effects.antt =====
-- What each statement leaves behind when it succeeds.
use meta_pulse.Prelude.{
  ℕ, ◌==◌, ◌≡◌, refl, Bool, true, false, ◌||◌, not, Bool-cases, inl, inr, Option, none, some,
  String, List,
}
use meta_pulse.Prelude.Text.{is_valid_text}
use meta_pulse.Prelude.Result.{Result}
use meta_pulse.Prelude.Tx.{Ensures, refuse_if, after}
use meta_pulse.Prelude.Table.{find_row, update_row}
use meta_pulse.Budget.{Budget}
use meta_pulse.RewardStore.{
  Grant, Outbox, Db, Call, StoreError, lock_budget, write_budget, write_grant, found, put_budgets,
  put_grants, put_outboxes, is_pool, is_grant, is_version, with_amounts, is_from, is_fenced,
  with_outcome, is_budget_save, is_outbox_update, get_budget_for_update, save_budget, find_grant,
  transition_grant, save_outbox, guarded,
}

pub found-Ensures :
    {R : Type 0} (o : Option R) (db : Db) → Ensures (λ r d. (o ≡ some r) × (d ≡ db)) (found o db)
found-Ensures none db = tt
found-Ensures (some r) db = (refl, refl)

put_budgets-Ensures :
    (o : Option (List Budget)) (db : Db)
    → Ensures
        (λ _ d. (rows : List Budget) × (o ≡ some rows) × (d ≡ record db { budgets = rows }))
        (put_budgets o db)
put_budgets-Ensures none db = tt
put_budgets-Ensures (some rows) db = (rows, refl, refl)

put_grants-Ensures :
    (o : Option (List Grant)) (db : Db)
    → Ensures
        (λ _ d. (rows : List Grant) × (o ≡ some rows) × (d ≡ record db { grants = rows }))
        (put_grants o db)
put_grants-Ensures none db = tt
put_grants-Ensures (some rows) db = (rows, refl, refl)

put_outboxes-Ensures :
    (e : StoreError) (o : Option (List Outbox)) (db : Db)
    → Ensures
        (λ _ d. (rows : List Outbox) × (o ≡ some rows) × (d ≡ record db { outboxes = rows }))
        (put_outboxes e o db)
put_outboxes-Ensures e none db = tt
put_outboxes-Ensures e (some rows) db = (rows, refl, refl)

-- A test that refuses, and a call that may fail, in front of a statement.
pub checked-Ensures :
    {T : Type 0} (P : T → Db → Type 0) (bad : Bool) (e : StoreError)
    (rest : Result StoreError T × Db) (db : Db)
    → (bad ≡ false → Ensures P rest)
    → Ensures P (after (refuse_if bad e db) (λ _ _. rest))
checked-Ensures P true e rest db h = tt
checked-Ensures P false e rest db h = h refl

abbrev pub settled_at : ℕ → Grant → Grant
settled_at at g = record g { status = "settled"; settled_at = some at }

abbrev pub reversed_at : ℕ → Grant → Grant
reversed_at at g = record g { status = "reversed"; reversed_at = some at }

module _ (fails : Call → Bool) where
  pub guarded-Ensures :
      {T : Type 0} (P : T → Db → Type 0) (c : Call) (act : Db → Result StoreError T × Db) (db : Db)
      → Ensures P (act db)
      → Ensures P (guarded fails c act db)
  guarded-Ensures P c act db h = elim (Bool-cases (fails c)) [ inl e ↦ rw e tt | inr e ↦ rw e h ]

  pub get_budget-Ensures :
      (p : ℕ) (t : String) (db : Db)
      → Ensures
          (λ b d. (find_row (is_pool p t) db.budgets ≡ some b) × (d ≡ db))
          (get_budget_for_update fails p t db)
  unfolding get_budget_for_update
  get_budget-Ensures p t db = elim (Bool-cases (p == 0 || not (is_valid_text 64 t))) [
    | inl e ↦ rw e tt
    | inr e ↦ rw e (
        guarded-Ensures _ lock_budget (λ d. found (find_row (is_pool p t) d.budgets) d) db
          (found-Ensures (find_row (is_pool p t) db.budgets) db))
  ]

  pub save_budget-Ensures :
      (b : Budget) (db : Db)
      → Ensures
          (λ _ d.
            (rows : List Budget) × (update_row (is_version b) (with_amounts b) db.budgets
              ≡ some rows)
            × (d ≡ record db { budgets = rows }))
          (save_budget fails b db)
  unfolding save_budget
  save_budget-Ensures b db = elim (Bool-cases (is_budget_save b)) [
    | inr e ↦ rw e tt
    | inl e ↦ rw e (
        guarded-Ensures _ write_budget
          (λ d. put_budgets (update_row (is_version b) (with_amounts b) d.budgets) d) db
          (put_budgets-Ensures (update_row (is_version b) (with_amounts b) db.budgets) db))
  ]

  pub find_grant-Ensures :
      (c : Call) (id : ℕ) (db : Db)
      → Ensures
          (λ g d. (find_row (is_grant id) db.grants ≡ some g) × (d ≡ db))
          (find_grant fails c id db)
  unfolding find_grant
  find_grant-Ensures c id db = elim (Bool-cases (id == 0)) [
    | inl e ↦ rw e tt
    | inr e ↦ rw e (
        guarded-Ensures _ c (λ d. found (find_row (is_grant id) d.grants) d) db
          (found-Ensures (find_row (is_grant id) db.grants) db))
  ]

  pub settle-Ensures :
      (id at : ℕ) (db : Db)
      → Ensures
          (λ _ d.
            (rows : List Grant) × (update_row (is_from id "pending" false) (settled_at at) db.grants
              ≡ some rows)
            × (d ≡ record db { grants = rows }))
          (transition_grant fails id "pending" "settled" at db)
  unfolding transition_grant
  settle-Ensures id at db = elim (Bool-cases (id == 0 || at == 0)) [
    | inl e ↦ rw e tt
    | inr e ↦ rw e (
        guarded-Ensures _ write_grant
          (λ d. put_grants (update_row (is_from id "pending" false) (settled_at at) d.grants) d) db
          (put_grants-Ensures (update_row (is_from id "pending" false) (settled_at at) db.grants)
            db))
  ]

  pub reverse-Ensures :
      (id at : ℕ) (db : Db)
      → Ensures
          (λ _ d.
            (rows : List Grant) × (update_row
                (is_from id "settled" false)
                (reversed_at at)
                db.grants
              ≡ some rows)
            × (d ≡ record db { grants = rows }))
          (transition_grant fails id "settled" "reversed" at db)
  unfolding transition_grant
  reverse-Ensures id at db = elim (Bool-cases (id == 0 || at == 0)) [
    | inl e ↦ rw e tt
    | inr e ↦ rw e (
        guarded-Ensures _ write_grant
          (λ d. put_grants (update_row (is_from id "settled" false) (reversed_at at) d.grants) d) db
          (put_grants-Ensures (update_row (is_from id "settled" false) (reversed_at at) db.grants)
            db))
  ]

  pub save_outbox-Ensures :
      (o : Outbox) (db : Db)
      → Ensures
          (λ _ d.
            (rows : List Outbox) × (update_row (is_fenced o) (with_outcome o) db.outboxes
              ≡ some rows)
            × (d ≡ record db { outboxes = rows }))
          (save_outbox fails o db)
  unfolding save_outbox
  save_outbox-Ensures o db = elim (Bool-cases (is_outbox_update o)) [
    | inr e ↦ rw e tt
    | inl e ↦ rw e (
        guarded-Ensures _ Call.write_outbox
          (λ d.
            put_outboxes StoreError.not_found (update_row (is_fenced o) (with_outcome o) d.outboxes)
              d)
          db
          (put_outboxes-Ensures StoreError.not_found
            (update_row (is_fenced o) (with_outcome o) db.outboxes) db))
  ]
