-- ===== src/RewardAccounts/Steps.antt =====
-- Each transaction of the settlement service keeps the accounts; the steps, and runs of them.
use meta_pulse.Prelude.{
  ℕ, ◌≡◌, refl, ◌∙◌, Bool, true, false, Bool-cases, inl, inr, Option, none, some, String, List,
}
use meta_pulse.Prelude.Text.{text_eq, is_valid_text}
use meta_pulse.Prelude.Result.{Result, ok, err}
use meta_pulse.Prelude.Tx.{Ensures, Ensures-after, Ensures-weaken, after}
use meta_pulse.Prelude.Table.{find_row, find_row_holds, update_row, select_rows}
use meta_pulse.RewardStore.{
  Grant, Outbox, Db, Tx, Call, StoreError, is_grant, is_many, is_pending_award, put_outboxes,
  guarded, find_grant, save_outbox, mark_award_settled, is_outbox_update, is_fenced, with_outcome,
  commit_second, lock_grant,
}
use meta_pulse.RewardAccounts.Balance.{IsBalanced}
use meta_pulse.RewardAccounts.Effects.{find_grant-Ensures, settled_at, reversed_at}
use meta_pulse.RewardAccounts.Moves.{Moves, Reverses, settle_grant-Moves, reverse_grant-Moves}
use meta_pulse.RewardAccounts.Keeps.{
  is_grant-eq, Same, Keeps, Keeps-refl, Keeps-trans, Keeps-Same, Keeps-Moves, run_tx-Keeps,
}
use meta_pulse.Settlement.Service.{
  World, complete, complete_grant, completed, forgive, save_outcome, settle_grant,
}
use meta_pulse.Settlement.Passes.{reverse, reverse_grant}

pub Same-refl : (db : Db) → Same db db
Same-refl db = record { budgets = refl; grants = refl; next_grant = refl }

pub put_outboxes-Same :
    (e : StoreError) (o : Option (List Outbox)) (db : Db) → Same db (put_outboxes e o db).1
put_outboxes-Same e none db = Same-refl db
put_outboxes-Same e (some rows) db = record { budgets = refl; grants = refl; next_grant = refl }

pub guarded-Same :
    {T : Type 0} (fails : Call → Bool) (c : Call) (act : Tx T) (db : Db)
    → Same db (act db).1
    → Same db (guarded fails c act db).1
guarded-Same fails c act db h = elim (Bool-cases (fails c)) [
  | inl e ↦ rw e (Same-refl db)
  | inr e ↦ rw e h
]

pub save_outbox-Same :
    (fails : Call → Bool) (o : Outbox) (db : Db) → Same db (save_outbox fails o db).1
unfolding save_outbox
save_outbox-Same fails o db = elim (Bool-cases (is_outbox_update o)) [
  | inr e ↦ rw e (Same-refl db)
  | inl e ↦ rw e (
      guarded-Same fails Call.write_outbox
        (λ d.
          put_outboxes StoreError.not_found (update_row (is_fenced o) (with_outcome o) d.outboxes)
            d)
        db
        (put_outboxes-Same StoreError.not_found
          (update_row (is_fenced o) (with_outcome o) db.outboxes) db))
]

pub mark-Same :
    (fails : Call → Bool) (key : String) (db : Db) → Same db (mark_award_settled fails key db).1
unfolding mark_award_settled
mark-Same fails key db = elim (Bool-cases (is_valid_text 64 key)) [
  | inr e ↦ rw e (Same-refl db)
  | inl e ↦ elim (Bool-cases (fails Call.mark_award)) [
    | inl down ↦ rw (e, down) (Same-refl db)
    | inr up ↦ elim (Bool-cases (is_many (select_rows (is_pending_award key) db.awards))) [
      | inl many ↦ rw (e, up, many) (Same-refl db)
      | inr few ↦ rw (e, up, few) (record { budgets = refl; grants = refl; next_grant = refl })
    ]
  ]
]

-- A transaction that keeps the accounts, followed by one that does not touch them.
pub Keeps-then : (a b c : Db) → Keeps a b → Same b c → Keeps a c
Keeps-then a b c k s = Keeps-trans a b c k (Keeps-Same b c k.balanced s)

pub Ensures-of :
    {T : Type 0} (P : Db → Type 0) (r : Result StoreError T × Db) → P r.1 → Ensures (λ _ d. P d) r
Ensures-of P (err e, d) h = tt
Ensures-of P (ok x, d) h = h

pub forgive-Same :
    (b : Bool) (db : Db) (r : Result StoreError (Unit {0}) × Db)
    → Same db r.1
    → Same db (forgive b r).1
forgive-Same true db (err StoreError.not_found, d) h = h
forgive-Same true db (err _, d) h = h
forgive-Same true db (ok x, d) h = h
forgive-Same false db r h = h

pub at_own_id :
    (db : Db) (id : ℕ) (g : Grant)
    → find_row (is_grant id) db.grants ≡ some g
    → find_row (is_grant g.id) db.grants ≡ some g
at_own_id db id g f =
    let same = is_grant-eq id g (find_row_holds (is_grant id) db.grants f) in
    (λ i. find_row (is_grant (same i)) db.grants) ∙ f

module _ (w : World) where
  reversed-Keeps :
      (db : Db) (g : Grant)
      → IsBalanced db
      → find_row (is_grant g.id) db.grants ≡ some g
      → Ensures (λ _ d. Keeps db d) (reverse_grant w g db)
  reversed-Keeps db g b held =
      Ensures-weaken {S = Db} {E = StoreError} {T = Unit {0}} (Reverses w db g b held)
        (λ _ d. Keeps db d) (reverse_grant w g db) (reverse_grant-Moves w db g b held)
        (λ _ d m. elim m [
          | inl same ↦ rw same (Keeps-refl db b)
          | inr moved ↦ Keeps-Moves db d g (reversed_at w.now) b moved
        ])

  pub reverse-Keeps : (db : Db) (g : Grant) → IsBalanced db → Keeps db (reverse w g db).1
  unfolding reverse
  reverse-Keeps db g b = run_tx-Keeps w.fails commit_second _ db b (
      Ensures-after _ (λ _ d. Keeps db d) (find_grant w.fails lock_grant g.id db) _
        (find_grant-Ensures w.fails lock_grant g.id db)
        (λ current d (f, same).
          rw same (reversed-Keeps db current b (at_own_id db g.id current f))))

module _ (w : World) (o : Outbox) where
  -- From the settled grant on: the award, then the outbox row.
  closed-Keeps :
      (start db : Db) (g : Grant) (settled : Bool)
      → Keeps start db
      → Ensures
          (λ _ d. Keeps start d)
          (after
            (mark_award_settled w.fails g.grant_id db)
            (λ _ d. forgive settled (save_outbox w.fails (completed w.now o) d)))
  closed-Keeps start db g settled k =
      Ensures-after (λ _ d. Keeps start d) _ (mark_award_settled w.fails g.grant_id db) _
        (Ensures-of (Keeps start) (mark_award_settled w.fails g.grant_id db) (
          Keeps-then start db (mark_award_settled w.fails g.grant_id db).1 k
            (mark-Same w.fails g.grant_id db)))
        (λ _ d l.
          Ensures-of (Keeps start) (forgive settled (save_outbox w.fails (completed w.now o) d)) (
            Keeps-then start d _ l (
              forgive-Same settled d (save_outbox w.fails (completed w.now o) d)
                (save_outbox-Same w.fails (completed w.now o) d))))

  complete_grant-Keeps :
      (db : Db) (g : Grant)
      → IsBalanced db
      → find_row (is_grant g.id) db.grants ≡ some g
      → Ensures (λ _ d. Keeps db d) (complete_grant w o g db)
  unfolding complete_grant
  complete_grant-Keeps db g b held = elim (Bool-cases (text_eq g.status "settled")) [
    | inl e ↦ rw e (closed-Keeps db db g true (Keeps-refl db b))
    | inr e ↦ rw e (
        Ensures-after (λ _ d. Moves (settled_at w.now) g db d) (λ _ d. Keeps db d)
          (settle_grant w g db) _ (settle_grant-Moves w db g b held)
          (λ _ d m. closed-Keeps db d g false (Keeps-Moves db d g (settled_at w.now) b m)))
  ]

  pub complete-Keeps : (db : Db) (g : Grant) → IsBalanced db → Keeps db (complete w o g db).1
  unfolding complete
  complete-Keeps db g b = run_tx-Keeps w.fails commit_second _ db b (
      Ensures-after _ (λ _ d. Keeps db d) (find_grant w.fails lock_grant g.id db) _
        (find_grant-Ensures w.fails lock_grant g.id db)
        (λ current d (f, same).
          rw same (complete_grant-Keeps db current b (at_own_id db g.id current f))))

  pub save_outcome-Keeps : (db : Db) → IsBalanced db → Keeps db (save_outcome w o db).1
  unfolding save_outcome
  save_outcome-Keeps db b = run_tx-Keeps w.fails commit_second (save_outbox w.fails o) db b (
      Ensures-of (Keeps db) (save_outbox w.fails o db)
        (Keeps-Same db (save_outbox w.fails o db).1 b (save_outbox-Same w.fails o db)))
