-- ===== src/LedgerService/Append.antt =====
-- What `LedgerService.Append` establishes, under every failure of a database call and under every
-- interference that keeps the tables consistent.
use meta_pulse.Prelude.{
  ℕ, ◌≡◌, ◌⊎◌, refl, sym, ap, subst, ◌∙◌, Bool, Bool-cases, inl, inr, Option, none, some, List, [],
  ◌∷◌, ◌++◌,
}
use meta_pulse.Prelude.Word.{IsInt64}
use meta_pulse.Prelude.Result.{Result, ok, err}
use meta_pulse.Ledger.{AssetType, LedgerError, Entry, Account, apply, validate_entry}
use meta_pulse.Ledger.Apply.{apply-Applied}
use meta_pulse.LedgerStore.{
  Db, Call, Isolation, repeatable_read, read_committed, view, find, find_again, lock, commit,
  ServiceError, after, domain, find_entry, find_account, find_by_idempotency,
  find_by_idempotency_again, get_or_create_for_update, finish, run_tx,
}
use meta_pulse.LedgerService.{
  reuse_or_conflict, store_entry, append_locked, append_absent, seen, append_entry, append,
}
use meta_pulse.LedgerService.Invariant.{IsConsistent, Locked, created-Locked}
use meta_pulse.LedgerService.Answers.{
  Ensures, Ensures-after, Ensures-weaken, Extends, reuse-Extends, found-InRange,
  store_entry-Answers,
}

module _ (fails : Call → Bool) (between : Db → Db) (now : ℕ) where
  stored_next :
      (base d : Db) (a : Account) (e : Entry) (r : Result LedgerError Account)
      → IsConsistent d
      → d.entries ≡ base.entries
      → IsInt64 e.amount
      → find_account e.user_id e.period_id e.asset_type d.accounts ≡ some a
      → apply a e ≡ r
      → Ensures (Extends base e) (after (domain r d) (store_entry fails between now e))
  stored_next base d a e (err x) c b h f q = tt
  stored_next base d a e (ok next) c b h f q =
      let range = found-InRange d e.user_id e.period_id e.asset_type a c f in
      let (o, w, s) = apply-Applied a e range h q in
      Ensures-weaken _ _ (store_entry fails between now e next d)
        (store_entry-Answers fails between now e.user_id e.period_id e.asset_type d a next e c f q o
          s)
        (λ row d' k. (k.0, inr (k.1 ∙ ap (λ (es : List Entry). es ++ row ∷ []) b)))

  append_locked-Extends :
      (base d : Db) (a : Account) (e : Entry) (o : Option Entry)
      → IsConsistent d
      → d.entries ≡ base.entries
      → IsInt64 e.amount
      → find_account e.user_id e.period_id e.asset_type d.accounts ≡ some a
      → (o ≡ none) ⊎ (find_entry e.operation e.idempotency_key d.entries ≡ o)
      → Ensures (Extends base e) (append_locked fails between now e a o d)
  unfolding append_locked
  append_locked-Extends base d a e (some x) c b h f (inl m) = cc
  append_locked-Extends base d a e (some x) c b h f (inr m) = reuse-Extends base d e x c b m
  append_locked-Extends base d a e none c b h f m = stored_next base d a e (apply a e) c b h f refl

  -- A repeated read sees no entry where the first saw none; a fresh one sees the tables.
  seen_again :
      (isolation : Isolation) (first current : List Entry) (e : Entry)
      → find_entry e.operation e.idempotency_key first ≡ none
      → (find_entry e.operation e.idempotency_key (view isolation first current) ≡ none)
        ⊎ (find_entry e.operation e.idempotency_key current
            ≡ find_entry e.operation e.idempotency_key (view isolation first current))
  seen_again repeatable_read first current e m = inl m
  seen_again read_committed first current e m = inr refl

  get_or_create-Locked :
      (d : Db) (u p : ℕ) (t : AssetType)
      → IsConsistent (between d)
      → Ensures
          (λ a d'. Locked u p t (between d) d' a)
          (get_or_create_for_update fails between now u p t d)
  unfolding get_or_create_for_update
  get_or_create-Locked d u p t c =
      let o = find_account u p t (between d).accounts in
      let (a, d', e, l) = created-Locked (between d) u p t o c refl in
      elim (Bool-cases (fails lock)) [ inl down ↦ rw down tt | inr running ↦ rw (running, e) l ]

  -- The second look for the key, and what follows it.
  looked_again :
      (isolation : Isolation) (first : List Entry) (base d : Db) (a : Account) (e : Entry)
      → find_entry e.operation e.idempotency_key first ≡ none
      → IsConsistent d
      → d.entries ≡ base.entries
      → IsInt64 e.amount
      → find_account e.user_id e.period_id e.asset_type d.accounts ≡ some a
      → Ensures (Extends base e) (
          after
            (find_by_idempotency_again fails between now isolation first e.operation
              e.idempotency_key d)
            (append_locked fails between now e a))
  unfolding find_by_idempotency_again
  looked_again isolation first base d a e m c b h f = elim (Bool-cases (fails find_again)) [
    | inl down ↦ rw down tt
    | inr running ↦ rw running (
        append_locked-Extends base d a e
          (find_entry e.operation e.idempotency_key (view isolation first d.entries)) c b h f
          (seen_again isolation first d.entries e m))
  ]

  -- The answer of one transaction that began at `start`.
  abbrev pub Outcome : Db → Entry → Entry → Db → Type 0
  Outcome start requested e d = Extends start requested e d ⊎ Extends (between start) requested e d

  append_absent-Outcome :
      (isolation : Isolation) (d : Db) (e : Entry) (o : Option Entry)
      → IsConsistent d
      → IsConsistent (between d)
      → IsInt64 e.amount
      → find_entry e.operation e.idempotency_key d.entries ≡ o
      → Ensures (Outcome d e) (append_absent fails between now isolation e d.entries o d)
  unfolding append_absent
  append_absent-Outcome isolation d e (some x) c k h m =
      Ensures-weaken _ _ (reuse_or_conflict e x d) (reuse-Extends d d e x c refl m)
        (λ y d' w. inl w)
  append_absent-Outcome isolation d e none c k h m =
      Ensures-after _ _
        (get_or_create_for_update fails between now e.user_id e.period_id e.asset_type d) _
        (get_or_create-Locked d e.user_id e.period_id e.asset_type k)
        (λ a d' l.
          Ensures-weaken {T = Entry} (Extends (between d) e) (Outcome d e)
            (after
              (find_by_idempotency_again fails between now isolation d.entries e.operation
                e.idempotency_key d')
              (append_locked fails between now e a))
            (looked_again isolation d.entries (between d) d' a e m l.consistent l.entries h l.found)
            (λ y d'' w. inr w))

  append_entry-Outcome :
      (isolation : Isolation) (d : Db) (e : Entry)
      → IsConsistent d
      → IsConsistent (between d)
      → IsInt64 e.amount
      → Ensures (Outcome d e) (append_entry fails between now isolation e d)
  unfolding append_entry find_by_idempotency
  append_entry-Outcome isolation d e c k h = valid_entry (validate_entry e)
    where
      valid_entry :
          (r : Result LedgerError (Unit {0}))
          → Ensures (Outcome d e) (
              after (domain r d) (λ _ d'.
                after (find_by_idempotency fails between now e.operation e.idempotency_key d') (λ o.
                  seen fails between now
                    (λ first. append_absent fails between now isolation e first o))))
      valid_entry (err x) = tt
      valid_entry (ok _) = elim (Bool-cases (fails find)) [
        | inl down ↦ rw down tt
        | inr running ↦ rw running (
            append_absent-Outcome isolation d e (find_entry e.operation e.idempotency_key d.entries)
              c k h refl)
      ]

  -- A transaction that fails leaves the tables to the other transactions.
  abbrev pub Atomic : Db → Entry → Result ServiceError Entry × Db → Type 0
  Atomic start requested (err x, d) = (d ≡ start) ⊎ (d ≡ between start)
  Atomic start requested (ok e, d) = Outcome start requested e d

  finish-Atomic :
      (d : Db) (e : Entry) (r : Result ServiceError Entry × Db)
      → Ensures (Outcome d e) r
      → Atomic d e (finish fails between now d r)
  finish-Atomic d e (err x, d') h = inr refl
  finish-Atomic d e (ok x, d') h = elim (Bool-cases (fails commit)) [
    | inl down ↦ rw down (inr refl)
    | inr running ↦ rw running h
  ]

  Atomic-IsConsistent :
      (d : Db) (e : Entry) (r : Result ServiceError Entry × Db)
      → IsConsistent d
      → IsConsistent (between d)
      → Atomic d e r
      → IsConsistent r.1
  Atomic-IsConsistent d e (err x, d') c k (inl h) = subst IsConsistent (sym h) c
  Atomic-IsConsistent d e (err x, d') c k (inr h) = subst IsConsistent (sym h) k
  Atomic-IsConsistent d e (ok x, d') c k (inl h) = h.0.consistent
  Atomic-IsConsistent d e (ok x, d') c k (inr h) = h.0.consistent

  -- `LedgerService.Append` keeps every snapshot equal to the replay of its entries, whichever calls
  -- of the database fail, at either isolation level, and whatever consistent state the other transactions leave while it waits
  -- for its row. It is atomic: an error leaves the tables as they were, or as the others left them;
  -- a result is the one stored entry of the request's operation and key, with the request's
  -- payload, in tables whose entries are the earlier ones, with at most that entry appended.
  pub append-Atomic :
      (isolation : Isolation) (d : Db) (requested : Entry)
      → IsConsistent d
      → IsConsistent (between d)
      → IsInt64 requested.amount
      → IsConsistent (append fails between now isolation requested d).1
        × Atomic d requested (append fails between now isolation requested d)
  unfolding append run_tx
  append-Atomic isolation d requested c k h = valid_entry (validate_entry requested)
    where
      valid_entry :
          (r : Result LedgerError (Unit {0}))
          → IsConsistent
              (after (domain r d) (λ _.
                run_tx fails between now (append_entry fails between now isolation requested))).1
            × Atomic d requested (
                after (domain r d) (λ _.
                  run_tx fails between now (append_entry fails between now isolation requested)))
      valid_entry (err x) = (c, inl refl)
      valid_entry (ok _) =
          let a =
            finish-Atomic d requested (append_entry fails between now isolation requested d)
              (append_entry-Outcome isolation d requested c k h) in
          (
            Atomic-IsConsistent d requested
                (finish fails between now d (append_entry fails between now isolation requested d))
                c k a,
            a,
          )
