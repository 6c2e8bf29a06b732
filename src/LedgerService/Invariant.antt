-- ===== src/LedgerService/Invariant.antt =====
-- The invariant of the ledger tables: every snapshot is the replay of its entries.
use meta_pulse.Prelude.{
  ℕ, ◌+◌, ◌≡◌, ◌≢◌, ◌<◌, refl, sym, ap, subst, ◌∙◌, true, Bool-cases, inl, inr, Option, none, some,
  List, [], ◌∷◌, ◌++◌, All, arith, if◌then◌else◌, ◌==◌, ◌&&◌,
}
use meta_pulse.Prelude.Int.{pos}
use meta_pulse.Prelude.Result.{ok}
use meta_pulse.Ledger.{AssetType, Entry, Account, asset_eq, apply, rebuild}
use meta_pulse.Ledger.Apply.{InRange, Owns, Applied}
use meta_pulse.Ledger.Rebuild.{rebuild-append}
use meta_pulse.LedgerService.Stored.{stored, apply-stored}
use meta_pulse.LedgerStore.{Db, is_at, is_entry_of, account_entries, find_account, created}
use meta_pulse.LedgerStore.Rows.{
  ids, Distinct, moved, Updated, account_entries-append, find_account-append, find_account-is_at,
  is_at_iff,
}

-- An account of a user, a period and an asset before its first entry.
abbrev pub opened : ℕ → ℕ → ℕ → AssetType → Account
opened id u p t = record {
  id = id;
  user_id = u;
  period_id = p;
  asset_type = t;
  balance = pos 0;
  version = 0;
}

-- The snapshot is what a replay of the entries computes; without a snapshot there is no entry.
abbrev pub IsReplay : ℕ → ℕ → AssetType → List Entry → Option Account → Type 0
IsReplay u p t es none = es ≡ []
IsReplay u p t es (some a) = (rebuild (opened a.id u p t) es ≡ ok a) × InRange a

pub record IsConsistent (db : Db) : Type 0 where
  pub distinct : Distinct (ids db.accounts)
  pub below : All (λ n. n < db.next_account) (ids db.accounts)
  pub positive : All (λ n. 0 < n) (ids db.accounts)
  pub next_positive : 0 < db.next_account
  pub replays :
      (u p : ℕ) (t : AssetType)
      → IsReplay u p t (account_entries u p t db.entries) (find_account u p t db.accounts)

pub ids-append : (rows : List Account) (a : Account) → ids (rows ++ a ∷ []) ≡ ids rows ++ a.id ∷ []
ids-append [] a = refl
ids-append (r ∷ rows) a = ap (λ (ns : List ℕ). r.id ∷ ns) (ids-append rows a)

All-snoc : (P : ℕ → Type 0) (ns : List ℕ) (n : ℕ) → All P ns → P n → All P (ns ++ n ∷ [])
All-snoc P [] n h p = (p, tt)
All-snoc P (m ∷ ns) n h p = (h.0, All-snoc P ns n h.1 p)

All-lt_suc : (ns : List ℕ) (n : ℕ) → All (λ m. m < n) ns → All (λ m. m < n + 1) ns
All-lt_suc [] n h = tt
All-lt_suc (m ∷ ns) n h = (omega (arith, h.0), All-lt_suc ns n h.1)

pub Distinct-snoc :
    (ns : List ℕ) (n : ℕ) → Distinct ns → All (λ m. m < n) ns → Distinct (ns ++ n ∷ [])
Distinct-snoc [] n d h = (tt, tt)
Distinct-snoc (m ∷ ns) n d h =
    (All-snoc (λ k. k ≢ m) ns n d.0 (omega (arith, h.0)), Distinct-snoc ns n d.1 h.1)

rebuild-nil : (a : Account) → rebuild a [] ≡ ok a
unfolding rebuild
rebuild-nil a = refl

-- A new row at a key that has none.
created_replays :
    (u p u' p' n : ℕ) (t t' : AssetType) (es : List Entry) (o : Option Account)
    → IsReplay u' p' t' es o
    → IsReplay u' p' t' es (elim o [
      | some b ↦ some b
      | none ↦ (if is_at u' p' t' (opened n u p t) then some (opened n u p t) else none)
    ])
created_replays u p u' p' n t t' es (some a) h = h
created_replays u p u' p' n t t' es none h = elim (Bool-cases (is_at u' p' t' (opened n u p t))) [
  | inl e ↦
      let (eu, ep, et) = (is_at_iff u' p' t' (opened n u p t)).0 e in
      let same : opened n u' p' t' ≡ opened n u p t =
        λ i. opened n (sym eu i) (sym ep i) (sym et i) in
      rw (e, h) (rebuild-nil (opened n u' p' t') ∙ ap ok same, omega arith)
  | inr e ↦ rw e h
]

-- The row that the lock holds, and the tables with it.
pub record Locked (u p : ℕ) (t : AssetType) (db d : Db) (a : Account) : Type 0 where
  pub consistent : IsConsistent d
  pub found : find_account u p t d.accounts ≡ some a
  pub entries : d.entries ≡ db.entries

pub found_new :
    (u p n : ℕ) (t : AssetType) (rows : List Account)
    → find_account u p t rows ≡ none
    → find_account u p t (rows ++ opened n u p t ∷ []) ≡ some (opened n u p t)
found_new u p n t rows h =
    find_account-append u p t rows (opened n u p t)
    ∙ rw (h, (is_at_iff u p t (opened n u p t)).1 (refl, refl, refl))

-- `GetOrCreateForUpdate` returns the row of the key and keeps the tables consistent.
pub created-Locked :
    (db : Db) (u p : ℕ) (t : AssetType) (o : Option Account)
    → IsConsistent db
    → find_account u p t db.accounts ≡ o
    → (a : Account) × (d : Db) × (created db u p t o ≡ (ok a, d)) × Locked u p t db d a
created-Locked db u p t (some a) c f =
    (a, db, refl, record { consistent = c; found = f; entries = refl })
created-Locked db u p t none c f =
    let n = db.next_account in
    let row = opened n u p t in
    let fresh_ids = ids-append db.accounts row in
    (
      row,
      record db { accounts = db.accounts ++ row ∷ []; next_account = n + 1 },
      refl,
      record {
        consistent = record {
          distinct = rw fresh_ids (Distinct-snoc (ids db.accounts) n c.distinct c.below);
          below = rw fresh_ids (
              All-snoc (λ m. m < n + 1) (ids db.accounts) n (All-lt_suc (ids db.accounts) n c.below)
                (omega arith));
          positive =
              rw fresh_ids (All-snoc (λ m. 0 < m) (ids db.accounts) n c.positive c.next_positive);
          next_positive = omega arith;
          replays = λ u' p' t'. rw (find_account-append u' p' t' db.accounts row) (
              created_replays u p u' p' n t t' (account_entries u' p' t' db.entries)
                (find_account u' p' t' db.accounts) (c.replays u' p' t'));
        };
        found = found_new u p n t db.accounts f;
        entries = refl;
      },
    )

pub same_row : (a e : Account) (x : Entry) → Applied a x e → moved a e ≡ e
same_row a e x s = λ i. record {
  id = sym s.id i;
  user_id = sym s.user i;
  period_id = sym s.period i;
  asset_type = sym s.asset i;
  balance = e.balance;
  version = e.version;
}

key_of_owner :
    (u p : ℕ) (t : AssetType) (a : Account) (e : Entry)
    → Owns a e
    → is_entry_of u p t e ≡ is_at u p t a
key_of_owner u p t a e o =
    λ i. sym o.user i == u && sym o.period i == p && asset_eq (sym o.asset i) t

found_at :
    (u p u' p' : ℕ) (t t' : AssetType) (rows : List Account) (a : Account)
    → find_account u p t rows ≡ some a
    → is_at u' p' t' a ≡ true
    → find_account u' p' t' rows ≡ some a
found_at u p u' p' t t' rows a f h =
    let (eu, ep, et) = (is_at_iff u p t a).0 (find_account-is_at u p t rows a f) in
    let (fu, fp, ft) = (is_at_iff u' p' t' a).0 h in
    (λ i. find_account ((sym fu ∙ eu) i) ((sym fp ∙ ep) i) ((sym ft ∙ et) i) rows) ∙ f

IsReplay-extended :
    (u p : ℕ) (t : AssetType) (es : List Entry) (a next : Account) (e : Entry) (id created_at : ℕ)
    → IsReplay u p t es (some a)
    → apply a e ≡ ok next
    → Applied a e next
    → IsReplay u p t (es ++ stored e id created_at next ∷ []) (some next)
IsReplay-extended u p t es a next e id created_at (r, range) q s =
    let whole =
      rebuild-append (opened a.id u p t) es (stored e id created_at next) r
        (apply-stored a next e id created_at ∙ q) refl in
    (
      (λ i. rebuild (opened (s.id i) u p t) (es ++ stored e id created_at next ∷ [])) ∙ whole,
      record { balance = s.fits; version = s.bounded },
    )

extended :
    (u p u' p' : ℕ) (t t' : AssetType) (d : Db) (a next : Account) (e : Entry) (id created_at : ℕ)
    → IsReplay u' p' t' (account_entries u' p' t' d.entries) (find_account u' p' t' d.accounts)
    → find_account u p t d.accounts ≡ some a
    → apply a e ≡ ok next
    → Owns a e
    → Applied a e next
    → IsReplay u' p' t'
        (if is_at u' p' t' a
          then account_entries u' p' t' d.entries ++ stored e id created_at next ∷ []
          else account_entries u' p' t' d.entries)
        (if is_at u' p' t' a then some (moved a next) else find_account u' p' t' d.accounts)
extended u p u' p' t t' d a next e id created_at r f q o s = elim (Bool-cases (is_at u' p' t' a)) [
  | inl h ↦
      let g = found_at u p u' p' t t' d.accounts a f h in
      let es = account_entries u' p' t' d.entries in
      rw h (
        subst (λ (x : Account). IsReplay u' p' t' (es ++ stored e id created_at next ∷ []) (some x))
          (sym (same_row a next e s))
          (IsReplay-extended u' p' t' es a next e id created_at (rw g at r) q s))
  | inr h ↦ rw h r
]

-- Storing the entry and the row that `Apply` computed keeps the tables consistent.
pub stored-IsConsistent :
    (u p : ℕ) (t : AssetType) (d : Db) (a next : Account) (e : Entry) (id created_at n : ℕ)
    (rows : List Account)
    → IsConsistent d
    → find_account u p t d.accounts ≡ some a
    → apply a e ≡ ok next
    → Owns a e
    → Applied a e next
    → Updated d.accounts a next rows
    → IsConsistent (record d {
      entries = d.entries ++ stored e id created_at next ∷ [];
      next_entry = n;
      accounts = rows;
    })
stored-IsConsistent u p t d a next e id created_at n rows c f q o s up = record {
  distinct = rw up.same_ids c.distinct;
  below = rw up.same_ids c.below;
  positive = rw up.same_ids c.positive;
  next_positive = c.next_positive;
  replays = λ u' p' t'.
      rw
        (
          account_entries-append u' p' t' d.entries (stored e id created_at next),
          key_of_owner u' p' t' a e o,
          up.lookup u' p' t',
        )
        (extended u p u' p' t t' d a next e id created_at (c.replays u' p' t') f q o s);
}
