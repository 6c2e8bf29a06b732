-- ===== src/LedgerService.antt =====
-- `LedgerService` (services/pulse/internal/service/ledger.go): appending one entry with its account
-- snapshot, and repairing a snapshot from the ledger.
mod Stored
pub mod Invariant
mod Answers
pub mod Append
pub mod Repair
pub mod Total
mod Tests
use meta_pulse.Prelude.{
  ℕ, suc, ◌+◌, Bool, true, false, ◌&&◌, ◌||◌, not, Option, none, some, String, List, [], ◌∷◌, ◌==◌,
  if◌then◌else◌,
}
use meta_pulse.Prelude.Int.{pos, eqb_ℤ}
use meta_pulse.Prelude.Text.{text_eq}
use meta_pulse.Prelude.Result.{Result, ok, err}
use meta_pulse.Ledger.{
  AssetType, contribution, ticket, Entry, Account, invalid_entry, invalid_account, validate_entry,
  apply, rebuild,
}
use meta_pulse.LedgerStore.{
  Db, Tx, Isolation, ◌>>=◌, ◌>>◌, done, refuse, domain, Call, ServiceError, idempotency_conflict,
  ledger, find_by_idempotency, find_by_idempotency_again, append_row_to, list_account_entries,
  get_or_create_for_update, save, replace_from_ledger, run_tx,
}

-- `reuseOrConflict`
unfoldable pub reuse_or_conflict : Entry → Entry → Tx Entry
reuse_or_conflict requested existing =
    if not (text_eq requested.payload_hash existing.payload_hash)
    then refuse idempotency_conflict
    else done existing

abbrev pub is_ledger_asset : AssetType → Bool
is_ledger_asset (AssetType.other _) = false
is_ledger_asset _ = true

module _ (fails : Call → Bool) (between : Db → Db) (now : ℕ) where
  -- From the computed account on: the entry is stored with its balance, then the snapshot.
  unfoldable pub store_entry : Entry → Account → Tx Entry
  store_entry requested next = do
    persisted ← append_row_to fails between now (record requested { balance_after = next.balance })
    save fails between now next
    done persisted

  -- After the row lock: the second look for the key, then the entry.
  unfoldable pub append_locked : Entry → Account → Option Entry → Tx Entry
  append_locked requested account (some existing) = reuse_or_conflict requested existing
  append_locked requested account none = do
    next ← domain (apply account requested)
    store_entry requested next

  -- `first` is what the first look for the key saw.
  unfoldable pub append_absent : Isolation → Entry → List Entry → Option Entry → Tx Entry
  append_absent isolation requested first (some existing) = reuse_or_conflict requested existing
  append_absent isolation requested first none = do
    account ←
        get_or_create_for_update fails between now requested.user_id requested.period_id
          requested.asset_type
    existing ←
        find_by_idempotency_again fails between now isolation first requested.operation
          requested.idempotency_key
    append_locked requested account existing

  abbrev pub seen : {U : Type 0} → (List Entry → Tx U) → Tx U
  seen body db = body db.entries db

  -- `appendEntry`
  unfoldable pub append_entry : Isolation → Entry → Tx Entry
  append_entry isolation requested = do
    domain (validate_entry requested)
    existing ← find_by_idempotency fails between now requested.operation requested.idempotency_key
    seen (λ first. append_absent isolation requested first existing)

  -- `LedgerService.Append`
  unfoldable pub append : Isolation → Entry → Tx Entry
  append isolation requested = do
    domain (validate_entry requested)
    run_tx fails between now (append_entry isolation requested)

  -- The body of the transaction in `RebuildAccount`.
  unfoldable pub repair : ℕ → ℕ → AssetType → Tx Account
  repair u p t = do
    current ← get_or_create_for_update fails between now u p t
    entries ← list_account_entries fails between now u p t
    rebuilt ← domain (
        rebuild
          (record {
            id = current.id;
            user_id = u;
            period_id = p;
            asset_type = t;
            balance = pos 0;
            version = 0;
          })
          entries)
    (if not (eqb_ℤ rebuilt.balance current.balance && rebuilt.version == current.version)
        then replace_from_ledger fails between now current.version rebuilt
        else done tt)
    done rebuilt

  -- `RebuildAccount`
  unfoldable pub rebuild_account : ℕ → ℕ → AssetType → Tx Account
  rebuild_account u p t =
      if u == 0 || p == 0 || not (is_ledger_asset t)
      then refuse (ledger (invalid_entry invalid_account))
      else run_tx fails between now (repair u p t)
