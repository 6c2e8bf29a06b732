-- ===== src/LedgerService/Answers.antt =====
-- The entry that answers a request, and that the two writes of `appendEntry` store one.
use meta_pulse.Prelude.{
  ℕ, ◌-◌, ◌≡◌, ◌⊎◌, refl, sym, ◌∙◌, Bool, Bool-cases, inl, inr, Option-cases, some, [], ◌∷◌, ◌++◌,
  arith, if◌then◌else◌, ◌==◌, ◌||◌,
}
use meta_pulse.Prelude.Text.{text_eq, text_eq_iff}
use meta_pulse.Prelude.Result.{Result, ok, err}
use meta_pulse.Ledger.{AssetType, Entry, Account, apply}
use meta_pulse.Ledger.Apply.{InRange, Owns, Applied}
use meta_pulse.LedgerService.Stored.{stored}
use meta_pulse.LedgerStore.{
  Db, Tx, Call, append_row, save_row_call, ServiceError, after, done, find_entry, find_account,
  account_entries, append_row_to, is_taken_id, after_id, save, update_row,
}
use meta_pulse.LedgerStore.Rows.{update_row-Updated, find_entry-append, is_keyed_refl}
use meta_pulse.LedgerService.{reuse_or_conflict, store_entry}
use meta_pulse.LedgerService.Invariant.{IsConsistent, IsReplay, stored-IsConsistent}

-- What holds of a result and the tables if the result is a value.
abbrev pub Ensures : {T : Type 0} → (T → Db → Type 0) → Result ServiceError T × Db → Type 0
Ensures P (err e, d) = Unit
Ensures P (ok x, d) = P x d

pub Ensures-after :
    {T U : Type 0} (P : T → Db → Type 0) (Q : U → Db → Type 0) (r : Result ServiceError T × Db)
    (next : T → Tx U)
    → Ensures P r
    → ((x : T) (d : Db) → P x d → Ensures Q (next x d))
    → Ensures Q (after r next)
Ensures-after P Q (err e, d) next h f = tt
Ensures-after P Q (ok x, d) next h f = f x d h

-- The entry that answers the request: it is the stored entry of the request's key, with the
-- request's payload, and the tables are consistent.
pub record Answers (requested : Entry) (e : Entry) (d : Db) : Type 0 where
  pub consistent : IsConsistent d
  pub keyed : find_entry requested.operation requested.idempotency_key d.entries ≡ some e
  pub payload : e.payload_hash ≡ requested.payload_hash

-- An answer, with the entries as they were or with it appended.
abbrev pub Extends : Db → Entry → Entry → Db → Type 0
Extends base requested e d =
    Answers requested e d × ((d.entries ≡ base.entries) ⊎ (d.entries ≡ base.entries ++ e ∷ []))

pub reuse-Extends :
    (base d : Db) (requested existing : Entry)
    → IsConsistent d
    → d.entries ≡ base.entries
    → find_entry requested.operation requested.idempotency_key d.entries ≡ some existing
    → Ensures (Extends base requested) (reuse_or_conflict requested existing d)
unfolding reuse_or_conflict
reuse-Extends base d requested existing c b f =
    elim (Bool-cases (text_eq requested.payload_hash existing.payload_hash)) [
      | inr e ↦ rw e tt
      | inl e ↦ rw e (
        record {
          consistent = c;
          keyed = f;
          payload = sym ((text_eq_iff requested.payload_hash existing.payload_hash).0 e);
        },
        inl b,
      )
    ]

-- The row that a lookup finds in consistent tables holds an int64 balance and a uint64 version.
pub found-InRange :
    (d : Db) (u p : ℕ) (t : AssetType) (a : Account)
    → IsConsistent d
    → find_account u p t d.accounts ≡ some a
    → InRange a
found-InRange d u p t a c f =
    let r : IsReplay u p t (account_entries u p t d.entries) (some a) = rw f at (c.replays u p t) in
    r.1

pub Ensures-weaken :
    {T : Type 0} (P Q : T → Db → Type 0) (r : Result ServiceError T × Db)
    → Ensures P r
    → ((x : T) (d : Db) → P x d → Q x d)
    → Ensures Q r
Ensures-weaken P Q (err e, d) h f = tt
Ensures-weaken P Q (ok x, d) h f = f x d h

module _ (fails : Call → Bool) (between : Db → Db) (now : ℕ) where
  abbrev with_entry : ℕ → Db → Entry → Db
  with_entry n d row = record d { entries = d.entries ++ row ∷ []; next_entry = n }

  -- The snapshot is saved into tables that hold the entry already.
  save-Ensures :
      (u p : ℕ) (t : AssetType) (d : Db) (a next : Account) (e : Entry) (id created_at n : ℕ)
      → IsConsistent d
      → find_account u p t d.accounts ≡ some a
      → apply a e ≡ ok next
      → Owns a e
      → Applied a e next
      → Ensures
          (λ _ d'. IsConsistent d' × (d'.entries ≡ d.entries ++ stored e id created_at next ∷ []))
          (save fails between now next (with_entry n d (stored e id created_at next)))
  unfolding save
  save-Ensures u p t d a next e id created_at n c f q o s =
      let (rows, w, up) = update_row-Updated u p t d.accounts a next c.distinct f in
      let previous : next.version - 1 ≡ a.version = omega (arith, s.version) in
      let written : update_row next.id (next.version - 1) next d.accounts ≡ some rows =
        (λ i. update_row (s.id i) (previous i) next d.accounts) ∙ w in
      elim (Bool-cases (fails save_row_call)) [
        | inl down ↦ rw down tt
        | inr up_and_running ↦ elim (Bool-cases (next.id == 0 || next.version == 0)) [
          | inl bad ↦ rw (up_and_running, bad) tt
          | inr good ↦
              rw (up_and_running, good, written)
                (stored-IsConsistent u p t d a next e id created_at n rows c f q o s up, refl)
        ]
      ]

  pub store_entry-Answers :
      (u p : ℕ) (t : AssetType) (d : Db) (a next : Account) (e : Entry)
      → IsConsistent d
      → find_account u p t d.accounts ≡ some a
      → apply a e ≡ ok next
      → Owns a e
      → Applied a e next
      → Ensures
          (λ row d'. Answers e row d' × (d'.entries ≡ d.entries ++ row ∷ []))
          (store_entry fails between now e next d)
  unfolding store_entry append_row_to
  store_entry-Answers u p t d a next e c f q o s =
      let id = if e.id == 0 then d.next_entry else e.id in
      let created_at = if e.created_at == 0 then now else e.created_at in
      let row = stored e id created_at next in
      elim (Bool-cases (fails append_row)) [
        | inl down ↦ rw down tt
        | inr running ↦ elim (Option-cases (find_entry e.operation e.idempotency_key d.entries)) [
          | inr (x, taken) ↦ rw (running, taken) tt
          | inl n ↦ elim (Bool-cases (is_taken_id e.id d.entries)) [
            | inl own ↦ rw (running, n, own) tt
            | inr free ↦
                let found =
                  find_entry-append e.operation e.idempotency_key d.entries row n
                    (is_keyed_refl e) in
                rw (running, n, free)
                  (Ensures-after _ _
                    (save fails between now next (with_entry (after_id e.id d.next_entry) d row))
                    (λ _. done row)
                    (save-Ensures u p t d a next e id created_at (after_id e.id d.next_entry) c f q
                      o s)
                    (λ _ d' h.
                      (record { consistent = h.0; keyed = rw h.1 found; payload = refl }, h.1)))
          ]
        ]
      ]
