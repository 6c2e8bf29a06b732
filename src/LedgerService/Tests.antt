-- ===== src/LedgerService/Tests.antt =====
-- One ledger with a minted entry, and the theorems of the ledger service at it.
use meta_pulse.Prelude.{◌≡◌, refl, subst, none, some, [], ◌∷◌, ◌++◌, Bool, false, arith, String}
use meta_pulse.Prelude.Int.{ℤ, pos}
use meta_pulse.Prelude.Word.{add_int64, sub_int64}
use meta_pulse.Prelude.Result.{Result, ok, err}
use meta_pulse.Ledger.{
  Entry, Account, Operation, ticket, ticket_mint, operation_eq, validate_entry, apply, rebuild,
  rebuild_from, replay,
}
use meta_pulse.LedgerStore.{
  Db, repeatable_read, read_committed, conflict, find_by_idempotency_again, Call,
  idempotency_conflict, find_entry, find_account, account_entries, run_tx, find_by_idempotency,
  get_or_create_for_update, append_row_to, is_taken_id, save, update_row, list_account_entries,
  replace_from_ledger, ServiceError,
}
use meta_pulse.LedgerService.{
  append, append_entry, append_absent, append_locked, store_entry, reuse_or_conflict, repair,
  rebuild_account,
}
use meta_pulse.LedgerService.Invariant.{IsConsistent}
use meta_pulse.LedgerService.Append.{Atomic, append-Atomic}
use meta_pulse.LedgerService.Repair.{RepairOutcome, rebuild_account-Repaired}
use meta_pulse.LedgerService.Total.{rebuild_account_stable, append_total, append_loses_race}

abbrev request : Operation → ℤ → String → Entry
request operation amount key = record {
  id = 0;
  user_id = 7;
  period_id = 2;
  asset_type = ticket;
  operation = operation;
  amount = amount;
  balance_after = pos 0;
  source_type = "action";
  source_ref = key;
  idempotency_key = key;
  payload_hash = "hash";
  reversal_of_entry_id = none;
  reason = "";
  metadata_json = [];
  created_at = 100;
}

abbrev mint : Entry
mint = request ticket_mint (pos 5) "a"

abbrev no_rows : Db
no_rows = record { entries = []; next_entry = 1; accounts = []; next_account = 1 }

abbrev steady : Call → Bool
steady c = false

abbrev alone : Db → Db
alone d = d

abbrev row : Account
row = record {
  id = 1;
  user_id = 7;
  period_id = 2;
  asset_type = ticket;
  balance = pos 0;
  version = 0;
}

abbrev minted_row : Account
minted_row = record row { balance = pos 5; version = 1 }

abbrev minted : Db
minted = record {
  entries = record mint { id = 1; balance_after = pos 5 } ∷ [];
  next_entry = 2;
  accounts = minted_row ∷ [];
  next_account = 2;
}

abbrev drifted : Db
drifted = record minted { accounts = record minted_row { balance = pos 9 } ∷ [] }

append_first :
    append steady alone 0 repeatable_read mint no_rows
    ≡ (ok (record mint { id = 1; balance_after = pos 5 }), minted)
unfolding append validate_entry run_tx append_entry find_by_idempotency find_by_idempotency_again
    append_absent find_entry get_or_create_for_update find_account append_locked apply sub_int64
    store_entry append_row_to is_taken_id save update_row add_int64
append_first = refl

no_rows-IsConsistent : IsConsistent no_rows
unfolding account_entries find_account
no_rows-IsConsistent = record {
  distinct = tt;
  below = tt;
  positive = tt;
  next_positive = omega arith;
  replays = λ u p t. refl;
}

append-Atomic_example :
    IsConsistent (append steady alone 0 repeatable_read mint no_rows).1
    × Atomic steady alone 0 no_rows mint (append steady alone 0 repeatable_read mint no_rows)
append-Atomic_example =
    append-Atomic steady alone 0 repeatable_read no_rows mint no_rows-IsConsistent
      no_rows-IsConsistent (omega arith, omega arith)

minted-IsConsistent : IsConsistent minted
minted-IsConsistent =
    subst (λ (r : Result ServiceError Entry × Db). IsConsistent r.1) append_first
      append-Atomic_example.0

rebuild_account-Repaired_example :
    RepairOutcome 7 2 ticket drifted drifted (rebuild_account steady alone 0 7 2 ticket drifted)
unfolding account_entries
rebuild_account-Repaired_example =
    rebuild_account-Repaired steady alone 0 7 2 ticket drifted ((tt, tt), (omega arith, tt))
      ((omega arith, omega arith), tt)

rebuild_account_stable_example :
    rebuild_account steady alone 0 7 2 ticket minted ≡ (ok minted_row, minted)
unfolding find_account
rebuild_account_stable_example =
    rebuild_account_stable steady alone 0 7 2 ticket minted minted_row (λ c. refl)
      (λ h. omega (arith, h)) (λ h. omega (arith, h)) refl minted-IsConsistent refl

append_total_example :
    (d' : Db) × (append steady alone 0 repeatable_read mint no_rows
      ≡ (ok (record mint { id = 1; balance_after = pos 5 }), d'))
    × (d'.entries ≡ [] ++ record mint { id = 1; balance_after = pos 5 } ∷ [])
    × (find_account 7 2 ticket d'.accounts ≡ some minted_row)
unfolding validate_entry find_entry find_account apply sub_int64 add_int64
append_total_example =
    append_total steady alone 0 repeatable_read no_rows
      (record { entries = []; next_entry = 1; accounts = row ∷ []; next_account = 2 }) row
      minted_row mint (λ c. refl) refl (omega arith, omega arith) refl refl refl
      no_rows-IsConsistent refl refl

-- The same request again returns the stored entry; another payload under its key is refused.
append_again :
    append steady alone 0 repeatable_read mint minted
    ≡ (ok (record mint { id = 1; balance_after = pos 5 }), minted)
unfolding append validate_entry run_tx append_entry find_by_idempotency append_absent find_entry
    reuse_or_conflict operation_eq
append_again = refl

append_conflict :
    append steady alone 0 repeatable_read (record mint { payload_hash = "other" }) minted
    ≡ (err idempotency_conflict, minted)
unfolding append validate_entry run_tx append_entry find_by_idempotency append_absent find_entry
    reuse_or_conflict operation_eq
append_conflict = refl

-- The same request, stored by another transaction while this one waits for its row: the second look
-- finds it if reads are fresh, and the unique key refuses the entry if they are repeatable.
append_raced_fresh :
    append steady (λ d. minted) 0 read_committed mint no_rows
    ≡ (ok (record mint { id = 1; balance_after = pos 5 }), minted)
unfolding append validate_entry run_tx append_entry find_by_idempotency find_by_idempotency_again
    append_absent find_entry reuse_or_conflict operation_eq get_or_create_for_update find_account
    append_locked
append_raced_fresh = refl

append_raced : append steady (λ d. minted) 0 repeatable_read mint no_rows ≡ (err conflict, minted)
unfolding append validate_entry run_tx append_entry find_by_idempotency find_by_idempotency_again
    append_absent find_entry reuse_or_conflict operation_eq get_or_create_for_update find_account
    append_locked apply sub_int64 add_int64 store_entry append_row_to
append_raced = refl

-- The drifted snapshot is put back.
rebuild_drifted : rebuild_account steady alone 0 7 2 ticket drifted ≡ (ok minted_row, minted)
unfolding rebuild_account run_tx repair get_or_create_for_update find_account list_account_entries
    account_entries rebuild rebuild_from replay apply validate_entry sub_int64 add_int64
    replace_from_ledger update_row
rebuild_drifted = refl

append_loses_race_example :
    append steady (λ d. minted) 0 repeatable_read mint no_rows ≡ (err conflict, minted)
unfolding validate_entry find_entry find_account operation_eq apply sub_int64 add_int64
append_loses_race_example =
    append_loses_race steady (λ d. minted) 0 no_rows minted minted_row
      (record minted_row { balance = pos 10; version = 2 }) mint
      (record mint { id = 1; balance_after = pos 5 }) (λ c. refl) refl refl refl refl refl refl
