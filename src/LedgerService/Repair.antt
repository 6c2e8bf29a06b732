-- ===== src/LedgerService/Repair.antt =====
-- What `RebuildAccount` establishes, whatever the snapshot was before it.
use meta_pulse.Prelude.{
  ℕ, ◌≡◌, ◌<◌, ◌⊎◌, refl, sym, ap, ◌∙◌, false, Bool, Bool-cases, inl, inr, Option, none, some, List,
  [], ◌∷◌, ◌++◌, All, arith, if◌then◌else◌, ◌==◌, ◌&&◌, ◌||◌, not,
}
use meta_pulse.Prelude.Int.{eqb_ℤ, eqb_ℤ→eq}
use meta_pulse.Prelude.Result.{Result, ok, err}
use meta_pulse.Ledger.{AssetType, LedgerError, Entry, Account, rebuild, asset_eq}
use meta_pulse.Ledger.Rebuild.{Amounts, Replayed, rebuild-Replayed}
use meta_pulse.LedgerStore.{
  Db, Call, commit, lock, list_rows, replace_row, ServiceError, after, domain, done, is_at,
  account_entries, find_account, update_row, created, finish, run_tx, get_or_create_for_update,
  list_account_entries, replace_from_ledger,
}
use meta_pulse.LedgerStore.Rows.{
  ids, Distinct, moved, Updated, update_row-Updated, find_account-append, find_account-is_at,
  is_at_iff,
}
use meta_pulse.LedgerService.{repair, rebuild_account, is_ledger_asset}
use meta_pulse.LedgerService.Invariant.{opened, ids-append, Distinct-snoc, found_new}
use meta_pulse.LedgerService.Answers.{Ensures, Ensures-after}

-- What the table itself guarantees: row ids are distinct, and the next one is new.
abbrev pub IsKeyed : Db → Type 0
IsKeyed db = Distinct (ids db.accounts) × All (λ n. n < db.next_account) (ids db.accounts)

-- The row of a key in tables that differ from `base` at most by that row's creation.
record Held (u p : ℕ) (t : AssetType) (base d : Db) (a : Account) : Type 0 where
  distinct : Distinct (ids d.accounts)
  found : find_account u p t d.accounts ≡ some a
  entries : d.entries ≡ base.entries
  others :
      (u' p' : ℕ) (t' : AssetType)
      → is_at u' p' t' (opened 0 u p t) ≡ false
      → find_account u' p' t' d.accounts ≡ find_account u' p' t' base.accounts

-- The snapshot of the key is the replay of its entries; entries and other snapshots are untouched.
pub record Repaired (u p : ℕ) (t : AssetType) (base : Db) (b : Account) (d : Db) : Type 0 where
  pub entries : d.entries ≡ base.entries
  pub replayed : rebuild (opened b.id u p t) (account_entries u p t base.entries) ≡ ok b
  pub snapshot : find_account u p t d.accounts ≡ some b
  pub others :
      (u' p' : ℕ) (t' : AssetType)
      → is_at u' p' t' (opened 0 u p t) ≡ false
      → find_account u' p' t' d.accounts ≡ find_account u' p' t' base.accounts

-- The answers of a repair that began at `start` and met the tables `met` once it held its row.
abbrev pub RepairOutcome : ℕ → ℕ → AssetType → Db → Db → Result ServiceError Account × Db → Type 0
RepairOutcome u p t start met (err x, d) = (d ≡ start) ⊎ (d ≡ met)
RepairOutcome u p t start met (ok b, d) = Repaired u p t met b d

new_others :
    (u p n u' p' : ℕ) (t t' : AssetType) (rows : List Account)
    → is_at u' p' t' (opened 0 u p t) ≡ false
    → find_account u' p' t' (rows ++ opened n u p t ∷ []) ≡ find_account u' p' t' rows
new_others u p n u' p' t t' rows h =
    find_account-append u' p' t' rows (opened n u p t) ∙ kept (find_account u' p' t' rows)
  where
    kept :
        (o : Option Account)
        → elim o [
          | some b ↦ some b
          | none ↦ (if is_at u' p' t' (opened n u p t) then some (opened n u p t) else none)
        ]
          ≡ o
    kept none = rw h refl
    kept (some b) = refl

created-Held :
    (db : Db) (u p : ℕ) (t : AssetType) (o : Option Account)
    → IsKeyed db
    → find_account u p t db.accounts ≡ o
    → Ensures (λ a d. Held u p t db d a) (created db u p t o)
created-Held db u p t (some a) k f = record {
  distinct = k.0;
  found = f;
  entries = refl;
  others = λ u' p' t' h. refl;
}
created-Held db u p t none k f = record {
  distinct =
      rw (ids-append db.accounts (opened db.next_account u p t))
        (Distinct-snoc (ids db.accounts) db.next_account k.0 k.1);
  found = found_new u p db.next_account t db.accounts f;
  entries = refl;
  others = λ u' p' t' h. new_others u p db.next_account u' p' t t' db.accounts h;
}

module _ (u p : ℕ) (t : AssetType) (base : Db) where
  -- A row at the key is told apart from other keys as the key is.
  at_key :
      (u' p' : ℕ) (t' : AssetType) (rows : List Account) (a : Account)
      → find_account u p t rows ≡ some a
      → is_at u' p' t' a ≡ is_at u' p' t' (opened 0 u p t)
  at_key u' p' t' rows a f =
      let (eu, ep, et) = (is_at_iff u p t a).0 (find_account-is_at u p t rows a f) in
      λ i. eu i == u' && ep i == p' && asset_eq (et i) t'

  moved_row :
      (rows : List Account) (a b : Account) (es : List Entry)
      → find_account u p t rows ≡ some a
      → Replayed (opened a.id u p t) es b
      → moved a b ≡ b
  moved_row rows a b es f r =
      let (eu, ep, et) = (is_at_iff u p t a).0 (find_account-is_at u p t rows a f) in
      λ i. record {
        id = sym r.id i;
        user_id = (eu ∙ sym r.user) i;
        period_id = (ep ∙ sym r.period) i;
        asset_type = (et ∙ sym r.asset) i;
        balance = b.balance;
        version = b.version;
      }

  IsReplay-at :
      (a b : Account)
      → rebuild (opened a.id u p t) (account_entries u p t base.entries) ≡ ok b
      → Replayed (opened a.id u p t) (account_entries u p t base.entries) b
      → rebuild (opened b.id u p t) (account_entries u p t base.entries) ≡ ok b
  IsReplay-at a b q r =
      (λ i. rebuild (opened (r.id i) u p t) (account_entries u p t base.entries)) ∙ q

  -- The snapshot agrees with the replay already.
  agreeing-Repaired :
      (d : Db) (a b : Account)
      → Held u p t base d a
      → rebuild (opened a.id u p t) (account_entries u p t base.entries) ≡ ok b
      → Replayed (opened a.id u p t) (account_entries u p t base.entries) b
      → b.balance ≡ a.balance
      → b.version ≡ a.version
      → Repaired u p t base b d
  agreeing-Repaired d a b l q r e v = record {
    entries = l.entries;
    replayed = IsReplay-at a b q r;
    snapshot =
        l.found
        ∙ ap some (
            (λ i. record a { balance = sym e i; version = sym v i })
            ∙ moved_row d.accounts a b (account_entries u p t base.entries) l.found r);
    others = l.others;
  }

  -- The row is replaced by the replay.
  replaced-Repaired :
      (d : Db) (a b : Account) (rows : List Account)
      → Held u p t base d a
      → rebuild (opened a.id u p t) (account_entries u p t base.entries) ≡ ok b
      → Replayed (opened a.id u p t) (account_entries u p t base.entries) b
      → Updated d.accounts a b rows
      → Repaired u p t base b (record d { accounts = rows })
  replaced-Repaired d a b rows l q r up =
      let es = account_entries u p t base.entries in
      record {
        entries = l.entries;
        replayed = IsReplay-at a b q r;
        snapshot =
            up.lookup u p t
            ∙ rw (find_account-is_at u p t d.accounts a l.found)
                (ap some (moved_row d.accounts a b es l.found r));
        others = λ u' p' t' h.
            up.lookup u' p' t' ∙ rw (at_key u' p' t' d.accounts a l.found, h) (l.others u' p' t' h);
      }

module _ (fails : Call → Bool) (between : Db → Db) (now : ℕ) where
  replaced-Ensures :
      (u p : ℕ) (t : AssetType) (base d : Db) (a b : Account)
      → Held u p t base d a
      → rebuild (opened a.id u p t) (account_entries u p t base.entries) ≡ ok b
      → Replayed (opened a.id u p t) (account_entries u p t base.entries) b
      → Ensures
          (λ _ d'. Repaired u p t base b d')
          (replace_from_ledger fails between now a.version b d)
  unfolding replace_from_ledger
  replaced-Ensures u p t base d a b l q r =
      let (rows, w, up) = update_row-Updated u p t d.accounts a b l.distinct l.found in
      let written : update_row b.id a.version b d.accounts ≡ some rows =
        (λ i. update_row (r.id i) a.version b d.accounts) ∙ w in
      elim (Bool-cases (fails replace_row)) [
        | inl down ↦ rw down tt
        | inr running ↦ elim (Bool-cases (b.id == 0)) [
          | inl bad ↦ rw (running, bad) tt
          | inr good ↦
              rw (running, good, written) (replaced-Repaired u p t base d a b rows l q r up)
        ]
      ]

  -- The tail of the transaction: the snapshot is written if it differs.
  compared-Ensures :
      (u p : ℕ) (t : AssetType) (base d : Db) (a b : Account)
      → Held u p t base d a
      → rebuild (opened a.id u p t) (account_entries u p t base.entries) ≡ ok b
      → Replayed (opened a.id u p t) (account_entries u p t base.entries) b
      → Ensures
          (λ _ d'. Repaired u p t base b d')
          ((if not (eqb_ℤ b.balance a.balance && b.version == a.version)
              then replace_from_ledger fails between now a.version b
              else done tt)
            d)
  compared-Ensures u p t base d a b l q r =
      elim (Bool-cases (eqb_ℤ b.balance a.balance && b.version == a.version)) [
        | inl e ↦ rw e (
            agreeing-Repaired u p t base d a b l q r
              (ground (arith, eqb_ℤ→eq b.balance a.balance, e)) (ground (arith, e)))
        | inr e ↦ rw e (replaced-Ensures u p t base d a b l q r)
      ]

  replay_of_rows :
      (u p : ℕ) (t : AssetType) (base d : Db) (a b : Account)
      → Amounts (account_entries u p t base.entries)
      → rebuild (opened a.id u p t) (account_entries u p t base.entries) ≡ ok b
      → Replayed (opened a.id u p t) (account_entries u p t base.entries) b
  replay_of_rows u p t base d a b h q =
      rebuild-Replayed (opened a.id u p t) (account_entries u p t base.entries)
        (record { balance = (omega arith, omega arith); version = omega arith }) h q

  rebuilt-Ensures :
      (u p : ℕ) (t : AssetType) (base d : Db) (a : Account) (r : Result LedgerError Account)
      → Held u p t base d a
      → Amounts (account_entries u p t base.entries)
      → rebuild (opened a.id u p t) (account_entries u p t base.entries) ≡ r
      → Ensures (Repaired u p t base) (
          after (domain r d) λ b d'.
            after
              ((if not (eqb_ℤ b.balance a.balance && b.version == a.version)
                  then replace_from_ledger fails between now a.version b
                  else done tt)
                d')
              (λ _. done b))
  rebuilt-Ensures u p t base d a (err x) l h q = tt
  rebuilt-Ensures u p t base d a (ok b) l h q =
      Ensures-after (λ _ d'. Repaired u p t base b d') (Repaired u p t base)
        ((if not (eqb_ℤ b.balance a.balance && b.version == a.version)
            then replace_from_ledger fails between now a.version b
            else done tt)
          d)
        (λ _. done b) (compared-Ensures u p t base d a b l q (replay_of_rows u p t base d a b h q))
        (λ _ d' w. w)

  repair-Repaired :
      (u p : ℕ) (t : AssetType) (d : Db)
      → IsKeyed (between d)
      → Amounts (account_entries u p t (between d).entries)
      → Ensures (Repaired u p t (between d)) (repair fails between now u p t d)
  unfolding repair get_or_create_for_update list_account_entries
  repair-Repaired u p t d k h = elim (Bool-cases (fails lock)) [
    | inl down ↦ rw down tt
    | inr running ↦ rw running (
        Ensures-after (λ a d'. Held u p t (between d) d' a) (Repaired u p t (between d))
          (created (between d) u p t (find_account u p t (between d).accounts)) _
          (created-Held (between d) u p t (find_account u p t (between d).accounts) k refl)
          (λ a d' l. elim (Bool-cases (fails list_rows)) [
            | inl down ↦ rw down tt
            | inr listing ↦ rw listing (
                rebuilt-Ensures u p t (between d) d' a
                  (rebuild (opened a.id u p t) (account_entries u p t d'.entries)) l h
                  (λ i. rebuild (opened a.id u p t) (account_entries u p t (sym l.entries i))))
          ]))
  ]

  -- `RebuildAccount` either returns the replay of the account's entries, and then the snapshot of
  -- the account is that replay, whatever it was before, while the entries and the snapshots of all
  -- other accounts are untouched; or it fails and leaves the tables as they were, or as the other
  -- transactions left them. It needs only that row ids are distinct and amounts are int64 values.
  pub rebuild_account-Repaired :
      (u p : ℕ) (t : AssetType) (d : Db)
      → IsKeyed (between d)
      → Amounts (account_entries u p t (between d).entries)
      → RepairOutcome u p t d (between d) (rebuild_account fails between now u p t d)
  unfolding rebuild_account run_tx
  rebuild_account-Repaired u p t d k h =
      elim (Bool-cases (u == 0 || p == 0 || not (is_ledger_asset t))) [
        | inl bad ↦ rw bad (inl refl)
        | inr good ↦
            rw good (finished (repair fails between now u p t d) (repair-Repaired u p t d k h))
      ]
    where
      finished :
          (r : Result ServiceError Account × Db)
          → Ensures (Repaired u p t (between d)) r
          → RepairOutcome u p t d (between d) (finish fails between now d r)
      finished (err x, d') w = inr refl
      finished (ok b, d') w = elim (Bool-cases (fails commit)) [
        | inl down ↦ rw down (inr refl)
        | inr running ↦ rw running w
      ]
