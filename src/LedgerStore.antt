-- ===== src/LedgerStore.antt =====
-- The ledger and account tables (services/pulse/internal/store/mysql/ledger.go) and the transaction
-- around them (unit_of_work.go). Each SQL statement is read as an operation on lists of rows.
-- `fails` decides which call of the database fails: every pattern of failures is covered. `between`
-- is what the other transactions commit while this one waits for its row lock; a transaction that
-- fails undoes its own writes and leaves those.
pub mod Rows
use meta_pulse.Prelude.{
  ℕ, suc, ◌+◌, ◌-◌, Bool, true, false, ◌&&◌, ◌||◌, not, Option, none, some, String, List, [], ◌∷◌,
  ◌++◌, ◌==◌, ltb, if◌then◌else◌,
}
use meta_pulse.Prelude.Int.{ℤ, pos}
use meta_pulse.Prelude.Text.{text_eq}
use meta_pulse.Prelude.Result.{Result, ok, err}
use meta_pulse.Ledger.{AssetType, Operation, Entry, Account, LedgerError, asset_eq, operation_eq}

pub record Db : Type 0 where
  pub entries : List Entry  -- pulse_ledger_entry, by id
  pub next_entry : ℕ
  pub accounts : List Account  -- pulse_account, by id
  pub next_account : ℕ

pub data ServiceError : Type 0 where
  infrastructure conflict idempotency_conflict : ServiceError
  ledger : LedgerError → ServiceError

-- The calls of the database in one use case.
pub data Call : Type 0 where
  find find_again lock append_row save_row_call list_rows replace_row commit : Call

abbrev pub Tx : Type 0 → Type 0
Tx T = Db → Result ServiceError T × Db

-- Which entries a later plain read of one transaction sees: those of its first read, or the
-- committed ones.
pub data Isolation : Type 0 where
  repeatable_read read_committed : Isolation

abbrev pub view : Isolation → List Entry → List Entry → List Entry
view repeatable_read first current = first
view read_committed first current = current

-- What follows a call: its error ends the use case.
abbrev pub after :
    {T U : Type 0} → Result ServiceError T × Db → (T → Tx U) → Result ServiceError U × Db
after (err e, db) next = (err e, db)
after (ok x, db) next = next x db

infixl 5 ◌>>=◌ ◌>>◌
abbrev pub ◌>>=◌ : {T U : Type 0} → Tx T → (T → Tx U) → Tx U
◌>>=◌ m next db = after (m db) next

abbrev pub ◌>>◌ : {U : Type 0} → Tx (Unit {0}) → Tx U → Tx U
◌>>◌ m rest db = after (m db) (λ _. rest)

abbrev pub done : {T : Type 0} → T → Tx T
done x db = (ok x, db)

abbrev pub refuse : {T : Type 0} → ServiceError → Tx T
refuse e db = (err e, db)

-- A pure step of the domain, with its error passed on.
abbrev pub domain : {T : Type 0} → Result LedgerError T → Tx T
domain (err e) db = (err (ledger e), db)
domain (ok x) db = (ok x, db)

-- `user_id = ? AND period_id = ? AND asset_type = ?`
abbrev pub is_entry_of : ℕ → ℕ → AssetType → Entry → Bool
is_entry_of u p t e = e.user_id == u && e.period_id == p && asset_eq e.asset_type t

abbrev pub is_at : ℕ → ℕ → AssetType → Account → Bool
is_at u p t a = a.user_id == u && a.period_id == p && asset_eq a.asset_type t

-- `operation = ? AND idempotency_key = ?`
abbrev pub is_keyed : Operation → String → Entry → Bool
is_keyed o k e = operation_eq e.operation o && text_eq e.idempotency_key k

unfoldable pub find_entry : Operation → String → List Entry → Option Entry
find_entry o k [] = none
find_entry o k (e ∷ es) = if is_keyed o k e then some e else find_entry o k es

unfoldable pub account_entries : ℕ → ℕ → AssetType → List Entry → List Entry
account_entries u p t [] = []
account_entries u p t (e ∷ es) =
    let rest = account_entries u p t es in if is_entry_of u p t e then e ∷ rest else rest

unfoldable pub find_account : ℕ → ℕ → AssetType → List Account → Option Account
find_account u p t [] = none
find_account u p t (a ∷ rows) = if is_at u p t a then some a else find_account u p t rows

abbrev pub cons_row : Account → Option (List Account) → Option (List Account)
cons_row a none = none
cons_row a (some rows) = some (a ∷ rows)

-- `UPDATE … SET balance, version WHERE id = ? AND version = ?`: `none` when no row is affected.
unfoldable pub update_row : ℕ → ℕ → Account → List Account → Option (List Account)
update_row id version a [] = none
update_row id version a (r ∷ rows) =
    let rest = update_row id version a rows in
    if r.id == id && r.version == version
    then some (record r { balance = a.balance; version = a.version } ∷ rows)
    else cons_row r rest

abbrev pub to_write : Db → Option (List Account) → Result ServiceError (Unit {0}) × Db
to_write db none = (err conflict, db)
to_write db (some rows) = (ok tt, record db { accounts = rows })

abbrev pub created : Db → ℕ → ℕ → AssetType → Option Account → Result ServiceError Account × Db
created db u p t (some a) = (ok a, db)
created db u p t none =
    let a : Account = record {
      id = db.next_account;
      user_id = u;
      period_id = p;
      asset_type = t;
      balance = pos 0;
      version = 0;
    } in
    (ok a, record db { accounts = db.accounts ++ a ∷ []; next_account = db.next_account + 1 })

abbrev pub is_found : Option Entry → Bool
is_found none = false
is_found (some _) = true

-- The primary key: an id that the request brings, and that a row has already.
unfoldable pub is_taken_id : ℕ → List Entry → Bool
is_taken_id id [] = false
is_taken_id id (e ∷ es) = (not (id == 0) && e.id == id) || is_taken_id id es

-- The next id that the database assigns, after a row with the requested one.
abbrev pub after_id : ℕ → ℕ → ℕ
after_id id next = if id == 0 then next + 1 else if ltb id next then next else id + 1

module _ (fails : Call → Bool) (between : Db → Db) (now : ℕ) where
  abbrev pub guarded : {T : Type 0} → Call → (Db → Result ServiceError T × Db) → Tx T
  guarded c act db = if fails c then (err infrastructure, db) else act db

  -- `FindByIdempotency`, the first read of its transaction; `none` is `ErrNotFound`.
  unfoldable pub find_by_idempotency : Operation → String → Tx (Option Entry)
  find_by_idempotency o k = guarded find (λ db. (ok (find_entry o k db.entries), db))

  -- `FindByIdempotency` after a first read that saw the entries `first`.
  unfoldable pub find_by_idempotency_again :
      Isolation → List Entry → Operation → String → Tx (Option Entry)
  find_by_idempotency_again isolation first o k =
      guarded find_again (λ db. (ok (find_entry o k (view isolation first db.entries)), db))

  -- `Append`: a row without an id takes the next one, and one without a time that of its creation.
  -- The unique key on operation and idempotency key refuses a second row, and the primary key a
  -- row whose own id is taken. The row is listed last, where its id puts it when the database
  -- assigns that; no caller brings an id of its own.
  unfoldable pub append_row_to : Entry → Tx Entry
  append_row_to e = guarded append_row λ db.
      let row = record e {
        id = if e.id == 0 then db.next_entry else e.id;
        created_at = if e.created_at == 0 then now else e.created_at;
      } in
      if is_found (find_entry e.operation e.idempotency_key db.entries)
        || is_taken_id e.id db.entries
      then (err conflict, db)
      else (
        ok row,
        record db { entries = db.entries ++ row ∷ []; next_entry = after_id e.id db.next_entry },
      )

  -- `ListAccountEntries`
  unfoldable pub list_account_entries : ℕ → ℕ → AssetType → Tx (List Entry)
  list_account_entries u p t = guarded list_rows (λ db. (ok (account_entries u p t db.entries), db))

  -- `GetOrCreateForUpdate`, once the row lock is held.
  unfoldable pub get_or_create_for_update : ℕ → ℕ → AssetType → Tx Account
  get_or_create_for_update u p t =
      guarded lock
        (λ db. let db' = between db in created db' u p t (find_account u p t db'.accounts))

  -- `accountRepository.Save`
  unfoldable pub save : Account → Tx (Unit {0})
  save a = guarded save_row_call λ db.
      if a.id == 0 || a.version == 0
      then (err conflict, db)
      else to_write db (update_row a.id (a.version - 1) a db.accounts)

  -- `ReplaceFromLedger`
  unfoldable pub replace_from_ledger : ℕ → Account → Tx (Unit {0})
  replace_from_ledger previous a = guarded replace_row λ db.
      if a.id == 0 then (err conflict, db) else to_write db (update_row a.id previous a db.accounts)

  -- `UnitOfWork.Do`: commit, or undo the own writes.
  abbrev pub finish : {T : Type 0} → Db → Result ServiceError T × Db → Result ServiceError T × Db
  finish start (err e, db) = (err e, between start)
  finish start (ok x, db) = if fails commit then (err infrastructure, between start) else (ok x, db)

  unfoldable pub run_tx : {T : Type 0} → Tx T → Tx T
  run_tx body db = finish db (body db)
