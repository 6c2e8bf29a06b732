-- ===== src/LedgerService/Total.antt =====
-- What `LedgerService.Append` and `RebuildAccount` return when no call of the database fails.
use meta_pulse.Prelude.{
  ℕ, ◌+◌, ◌-◌, ◌≡◌, ◌≢◌, ◌<◌, refl, sym, ap, subst, ◌∙◌, true, false, Bool, none, some, List, [],
  ◌∷◌, ◌++◌, All, arith, if◌then◌else◌, ◌==◌,
}
use meta_pulse.Prelude.Int.{ℤ, eqb_ℤ}
use meta_pulse.Prelude.Word.{IsInt64}
use meta_pulse.Prelude.Result.{Result, ok, err}
use meta_pulse.Ledger.{AssetType, Entry, Account, apply, validate_entry}
use meta_pulse.Ledger.Apply.{apply-Applied, Applied}
use meta_pulse.LedgerStore.{
  Db, conflict, Isolation, repeatable_read, read_committed, view, Call, ServiceError, created,
  find_entry, find_account, account_entries, update_row, append_row_to, is_taken_id, save,
  find_by_idempotency, find_by_idempotency_again, get_or_create_for_update, list_account_entries,
  run_tx,
}
use meta_pulse.LedgerStore.Rows.{ids, update_row-Updated, find_account-ids, find_account-is_at}
use meta_pulse.LedgerService.{
  store_entry, append_locked, append_absent, append_entry, append, repair, rebuild_account,
  is_ledger_asset,
}
use meta_pulse.LedgerService.Invariant.{IsConsistent, IsReplay, Locked, created-Locked, same_row}
use meta_pulse.LedgerService.Answers.{found-InRange}

eqb_ℤ_refl : (b : ℤ) → eqb_ℤ b b ≡ true
eqb_ℤ_refl b = ground arith

positive-nonzero : (ns : List ℕ) → All (λ n. 0 < n) ns → All (λ n. n ≢ 0) ns
positive-nonzero [] h = tt
positive-nonzero (n ∷ ns) h = (omega (arith, h.0), positive-nonzero ns h.1)

abbrev IsHeld : ℕ → ℕ → AssetType → Db → Result ServiceError Account × Db → Type 0
IsHeld u p t db (err x, d) = Unit
IsHeld u p t db (ok a, d) = Locked u p t db d a

created_row-Locked :
    (db d : Db) (u p : ℕ) (t : AssetType) (a : Account)
    → IsConsistent db
    → created db u p t (find_account u p t db.accounts) ≡ (ok a, d)
    → Locked u p t db d a
created_row-Locked db d u p t a c q =
    let (a', d', e, l) = created-Locked db u p t (find_account u p t db.accounts) c refl in
    subst (IsHeld u p t db) (sym e ∙ q) l

module _ (fails : Call → Bool) (between : Db → Db) (now : ℕ) where
  -- On consistent tables `RebuildAccount` returns the snapshot and writes nothing.
  pub rebuild_account_stable :
      (u p : ℕ) (t : AssetType) (d : Db) (a : Account)
      → ((c : Call) → fails c ≡ false)
      → u ≢ 0
      → p ≢ 0
      → is_ledger_asset t ≡ true
      → IsConsistent (between d)
      → find_account u p t (between d).accounts ≡ some a
      → rebuild_account fails between now u p t d ≡ (ok a, between d)
  unfolding rebuild_account run_tx repair get_or_create_for_update list_account_entries
  rebuild_account_stable u p t d a up hu hp ht c f =
      let r : IsReplay u p t (account_entries u p t (between d).entries) (some a) =
        rw f at (c.replays u p t) in
      let hu0 : (u == 0) ≡ false = ground (arith, hu) in
      let hp0 : (p == 0) ≡ false = ground (arith, hp) in
      let hv : (a.version == a.version) ≡ true = ground arith in
      rw
        (
          hu0,
          hp0,
          ht,
          up Call.lock,
          f,
          up Call.list_rows,
          r.0,
          eqb_ℤ_refl a.balance,
          hv,
          up Call.commit,
        )
        refl

  -- The row of a request: all that the request says, under the id that the database assigns, with
  -- the balance that `Apply` computed and, if the request brings none, the time of the creation.
  abbrev pub new_row : ℕ → Entry → Account → Entry
  new_row id e next = record e {
    id = id;
    balance_after = next.balance;
    created_at = if e.created_at == 0 then now else e.created_at;
  }

  untaken_id : (id : ℕ) (es : List Entry) → id ≡ 0 → is_taken_id id es ≡ false
  unfolding is_taken_id
  untaken_id id [] z = refl
  untaken_id id (e ∷ es) z = ground (arith, z, untaken_id id es z)

  store_entry-ok :
      (u p : ℕ) (t : AssetType) (d : Db) (a next : Account) (e : Entry)
      → ((c : Call) → fails c ≡ false)
      → IsConsistent d
      → find_account u p t d.accounts ≡ some a
      → find_entry e.operation e.idempotency_key d.entries ≡ none
      → e.id ≡ 0
      → Applied a e next
      → (d' : Db) × (store_entry fails between now e next d
          ≡ (ok (new_row d.next_entry e next), d'))
        × (d'.entries ≡ d.entries ++ new_row d.next_entry e next ∷ [])
        × (find_account u p t d'.accounts ≡ some next)
  unfolding store_entry append_row_to save
  store_entry-ok u p t d a next e up c f n z s =
      let (rows, w, changed) = update_row-Updated u p t d.accounts a next c.distinct f in
      let previous : next.version - 1 ≡ a.version = omega (arith, s.version) in
      let written : update_row next.id (next.version - 1) next d.accounts ≡ some rows =
        (λ i. update_row (s.id i) (previous i) next d.accounts) ∙ w in
      let named : next.id ≢ 0 = λ z.
        find_account-ids u p 0 t d.accounts a (positive-nonzero (ids d.accounts) c.positive) f
          (sym s.id ∙ z) in
      let id : (next.id == 0) ≡ false = ground (arith, named) in
      let version : (next.version == 0) ≡ false = ground (arith, s.version) in
      let assigned : (e.id == 0) ≡ true = ground (arith, z) in
      (
        record d {
          entries = d.entries ++ new_row d.next_entry e next ∷ [];
          next_entry = d.next_entry + 1;
          accounts = rows;
        },
        rw
            (
              up Call.append_row,
              n,
              untaken_id e.id d.entries z,
              assigned,
              up Call.save_row_call,
              id,
              version,
              written,
            )
            refl,
        refl,
        changed.lookup u p t
            ∙ rw (find_account-is_at u p t d.accounts a f) (ap some (same_row a next e s)),
      )

  unseen_again :
      (isolation : Isolation) (first current : List Entry) (e : Entry)
      → find_entry e.operation e.idempotency_key first ≡ none
      → find_entry e.operation e.idempotency_key current ≡ none
      → find_entry e.operation e.idempotency_key (view isolation first current) ≡ none
  unseen_again repeatable_read first current e m n = m
  unseen_again read_committed first current e m n = n

  -- `LedgerService.Append` records a new entry: if no call of the database fails, the entry is well
  -- formed and brings no id, nobody has used its key, and `Apply` accepts it on the row that the lock
  -- yields, then it returns and appends the request itself, with the id that the database assigns, the
  -- balance that `Apply` computed and a time of creation; and the account's snapshot is what `Apply`
  -- computed.
  pub append_total :
      (isolation : Isolation) (d d₁ : Db) (a next : Account) (e : Entry)
      → ((c : Call) → fails c ≡ false)
      → validate_entry e ≡ ok tt
      → IsInt64 e.amount
      → e.id ≡ 0
      → find_entry e.operation e.idempotency_key d.entries ≡ none
      → find_entry e.operation e.idempotency_key (between d).entries ≡ none
      → IsConsistent (between d)
      → created
          (between d)
          e.user_id
          e.period_id
          e.asset_type
          (find_account e.user_id e.period_id e.asset_type (between d).accounts)
        ≡ (ok a, d₁)
      → apply a e ≡ ok next
      → (d' : Db) × (append fails between now isolation e d
          ≡ (ok (new_row d₁.next_entry e next), d'))
        × (d'.entries ≡ (between d).entries ++ new_row d₁.next_entry e next ∷ [])
        × (find_account e.user_id e.period_id e.asset_type d'.accounts ≡ some next)
  unfolding append run_tx append_entry append_absent append_locked find_by_idempotency
      find_by_idempotency_again get_or_create_for_update
  append_total isolation d d₁ a next e up v h z n m c l q =
      let held = created_row-Locked (between d) d₁ e.user_id e.period_id e.asset_type a c l in
      let k = held.entries in
      let f = held.found in
      let (o, w, s) =
        apply-Applied a e (found-InRange d₁ e.user_id e.period_id e.asset_type a held.consistent f)
          h q in
      let fresh : find_entry e.operation e.idempotency_key d₁.entries ≡ none = rw k m in
      let unseen : find_entry e.operation e.idempotency_key (view isolation d.entries d₁.entries)
          ≡ none =
        unseen_again isolation d.entries d₁.entries e n fresh in
      let (d', stores, appended, snapshot) =
        store_entry-ok e.user_id e.period_id e.asset_type d₁ a next e up held.consistent f fresh z
          s in
      (
        d',
        rw
            (
              v,
              up Call.find,
              n,
              up Call.lock,
              l,
              up Call.find_again,
              unseen,
              q,
              stores,
              up Call.commit,
            )
            refl,
        appended ∙ ap (λ (es : List Entry). es ++ new_row d₁.next_entry e next ∷ []) k,
        snapshot,
      )

  -- With repeatable reads, a request whose key another transaction stores during the wait for the
  -- row is refused as a conflict by the unique key, also when the payloads agree: if no call of the
  -- database fails and `Apply` accepts the request, `LedgerService.Append` returns `ErrConflict` and
  -- leaves the tables to the other transaction.
  pub append_loses_race :
      (d d₁ : Db) (a next : Account) (e x : Entry)
      → ((c : Call) → fails c ≡ false)
      → validate_entry e ≡ ok tt
      → find_entry e.operation e.idempotency_key d.entries ≡ none
      → find_entry e.operation e.idempotency_key (between d).entries ≡ some x
      → created
          (between d)
          e.user_id
          e.period_id
          e.asset_type
          (find_account e.user_id e.period_id e.asset_type (between d).accounts)
        ≡ (ok a, d₁)
      → d₁.entries ≡ (between d).entries
      → apply a e ≡ ok next
      → append fails between now repeatable_read e d ≡ (err conflict, between d)
  unfolding append run_tx append_entry append_absent append_locked find_by_idempotency
      find_by_idempotency_again get_or_create_for_update store_entry append_row_to
  append_loses_race d d₁ a next e x up v n m l k q =
      let taken : find_entry e.operation e.idempotency_key d₁.entries ≡ some x = rw k m in
      rw (v, up Call.find, n, up Call.lock, l, up Call.find_again, n, q, up Call.append_row, taken)
        refl
