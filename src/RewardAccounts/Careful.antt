-- ===== src/RewardAccounts/Careful.antt =====
-- Transactions that keep the accounts, composed; and the statements of a claim.
use meta_pulse.Prelude.{
  ℕ, ◌==◌, ltb, ◌∙◌, Bool, true, false, ◌&&◌, ◌||◌, not, Bool-cases, inl, inr, Option, none, some,
  String, List, [], ◌∷◌,
}
use meta_pulse.Prelude.Text.{text_eq, is_valid_text}
use meta_pulse.Prelude.Result.{Result, ok, err}
use meta_pulse.Prelude.Tx.{◌>>=◌, ◌>>◌, after, refuse_if, lift, finish}
use meta_pulse.Prelude.Table.{find_row, update_row, select_rows}
use meta_pulse.RewardStore.{
  Outbox, Db, Tx, Call, StoreError, infrastructure, invalid, is_grant, put_outboxes, guarded,
  leased, is_due, is_open, take, next_attempt, found, find_grant, find_grant_by_public_id,
  claim_due, claim_dead, lease_rows, find_by_grant, list_for_reconciliation, run_tx,
}
use meta_pulse.RewardAccounts.Balance.{IsBalanced}
use meta_pulse.RewardAccounts.Keeps.{Same, Keeps, Keeps-refl, Keeps-trans, Keeps-Same}
use meta_pulse.RewardAccounts.Steps.{Same-refl, guarded-Same, put_outboxes-Same}

abbrev pub IsCareful : {T : Type 0} → Tx T → Type 0
IsCareful m = (db : Db) → IsBalanced db → Keeps db (m db).1

-- Transactions that leave the accounts alone.
abbrev pub IsAside : {T : Type 0} → Tx T → Type 0
IsAside m = (db : Db) → Same db (m db).1

Same-trans : (a b c : Db) → Same a b → Same b c → Same a c
Same-trans a b c s t = record {
  budgets = t.budgets ∙ s.budgets;
  grants = t.grants ∙ s.grants;
  next_grant = t.next_grant ∙ s.next_grant;
}

pub aside-IsCareful : {T : Type 0} (m : Tx T) → IsAside m → IsCareful m
aside-IsCareful m h db b = Keeps-Same db (m db).1 b (h db)

pub bind-IsCareful :
    {T U : Type 0} (m : Tx T) (next : T → Tx U)
    → IsCareful m
    → ((x : T) → IsCareful (next x))
    → IsCareful (m >>= next)
bind-IsCareful {T = T} {U = U} m next h k db b = go (m db) (h db b)
  where
    go : (r : Result StoreError T × Db) → Keeps db r.1 → Keeps db (after r next).1
    go (err e, d) l = l
    go (ok x, d) l = Keeps-trans db d (next x d).1 l (k x d l.balanced)

pub then-IsCareful :
    {U : Type 0} (m : Tx (Unit {0})) (rest : Tx U)
    → IsCareful m
    → IsCareful rest
    → IsCareful (m >> rest)
then-IsCareful {U = U} m rest h k db b = go (m db) (h db b)
  where
    go : (r : Result StoreError (Unit {0}) × Db) → Keeps db r.1 → Keeps db (after r (λ _. rest)).1
    go (err e, d) l = l
    go (ok x, d) l = Keeps-trans db d (rest d).1 l (k d l.balanced)

pub bind-IsAside :
    {T U : Type 0} (m : Tx T) (next : T → Tx U)
    → IsAside m
    → ((x : T) → IsAside (next x))
    → IsAside (m >>= next)
bind-IsAside {T = T} {U = U} m next h k db = go (m db) (h db)
  where
    go : (r : Result StoreError T × Db) → Same db r.1 → Same db (after r next).1
    go (err e, d) l = l
    go (ok x, d) l = Same-trans db d (next x d).1 l (k x d)

pub checked-IsAside :
    {U : Type 0} (bad : Bool) (e : StoreError) (rest : Tx U)
    → IsAside rest
    → IsAside (refuse_if bad e >> rest)
checked-IsAside true e rest h db = Same-refl db
checked-IsAside false e rest h db = h db

pub checked-IsCareful :
    {U : Type 0} (bad : Bool) (e : StoreError) (rest : Tx U)
    → IsCareful rest
    → IsCareful (refuse_if bad e >> rest)
checked-IsCareful true e rest h db b = Keeps-refl db b
checked-IsCareful false e rest h db b = h db b

pub found-IsAside : {R : Type 0} (o : Option R) (db : Db) → Same db (found o db).1
found-IsAside none db = Same-refl db
found-IsAside (some r) db = Same-refl db

lift-IsAside : {T : Type 0} (r : Result StoreError T) → IsAside (lift r)
lift-IsAside (err e) db = Same-refl db
lift-IsAside (ok x) db = Same-refl db

module _ (fails : Call → Bool) where
  pub guarded-IsAside :
      {T : Type 0} (c : Call) (act : Tx T) → IsAside act → IsAside (guarded fails c act)
  guarded-IsAside c act h db = guarded-Same fails c act db (h db)

  pub run_tx-IsAside :
      {T : Type 0} (c : Call) (body : Tx T) → IsAside body → IsAside (run_tx fails c body)
  unfolding run_tx
  run_tx-IsAside {T = T} c body h db = go (body db) (h db)
    where
      go :
          (r : Result StoreError T × Db)
          → Same db r.1
          → Same db (finish (fails c) infrastructure db r).1
      go (err e, d) l = Same-refl db
      go (ok x, d) l = elim (Bool-cases (fails c)) [ inl e ↦ rw e (Same-refl db) | inr e ↦ rw e l ]

  pub find_grant-IsAside : (c : Call) (id : ℕ) → IsAside (find_grant fails c id)
  unfolding find_grant
  find_grant-IsAside c id = checked-IsAside (id == 0) invalid _ (
      guarded-IsAside c (λ db. found (find_row (is_grant id) db.grants) db)
        (λ db. found-IsAside (find_row (is_grant id) db.grants) db))

  pub find_public-IsAside : (key : String) → IsAside (find_grant_by_public_id fails key)
  unfolding find_grant_by_public_id
  find_public-IsAside key = checked-IsAside (not (is_valid_text 64 key)) invalid _ (
      guarded-IsAside Call.read_public_grant
        (λ db. found (find_row (λ g. text_eq g.grant_id key) db.grants) db)
        (λ db. found-IsAside (find_row (λ g. text_eq g.grant_id key) db.grants) db))

  pub find_by_grant-IsAside : (id : ℕ) → IsAside (find_by_grant fails id)
  unfolding find_by_grant
  find_by_grant-IsAside id = checked-IsAside (id == 0) invalid _ (
      guarded-IsAside Call.read_outbox
        (λ db. found (find_row (λ o. o.reward_grant_id == id) db.outboxes) db)
        (λ db. found-IsAside (find_row (λ o. o.reward_grant_id == id) db.outboxes) db))

  pub list-IsAside : (limit : ℕ) → IsAside (list_for_reconciliation fails limit)
  unfolding list_for_reconciliation
  list-IsAside limit = checked-IsAside (limit == 0 || ltb 5000 limit) invalid _ (
      guarded-IsAside Call.list_rows (λ db. (ok (take limit (select_rows is_open db.outboxes)), db))
        Same-refl)

  lease_rows-IsAside : (until : ℕ) (rows : List Outbox) → IsAside (lease_rows fails until rows)
  unfolding lease_rows
  lease_rows-IsAside until [] = Same-refl
  lease_rows-IsAside until (r ∷ rows) =
      bind-IsAside (lift (next_attempt r.attempts)) _ (lift-IsAside (next_attempt r.attempts))
        λ attempts.
          bind-IsAside _ _
            (guarded-IsAside Call.lease_due
              (λ db.
                put_outboxes StoreError.conflict
                  (update_row
                    (λ x. x.id == r.id && text_eq x.status r.status && x.attempts == r.attempts)
                    (leased until attempts) db.outboxes)
                  db)
              (λ db.
                put_outboxes-Same StoreError.conflict
                  (update_row
                    (λ x. x.id == r.id && text_eq x.status r.status && x.attempts == r.attempts)
                    (leased until attempts) db.outboxes)
                  db))
            λ _.
              bind-IsAside (lease_rows fails until rows) _ (lease_rows-IsAside until rows)
                (λ rest db. Same-refl db)

  pub claim_due-IsAside :
      (locked : Outbox → Bool) (now limit until : ℕ)
      → IsAside (claim_due fails locked now limit until)
  unfolding claim_due
  claim_due-IsAside locked now limit until =
      checked-IsAside (limit == 0 || ltb 5000 limit) invalid _ (
        checked-IsAside (now == 0 || not (ltb now until)) invalid _ (
          bind-IsAside _ (lease_rows fails until)
            (guarded-IsAside Call.select_due
              (λ db. (
                ok (take limit (select_rows (λ r. is_due now r && not (locked r)) db.outboxes)),
                db,
              ))
              Same-refl)
            (lease_rows-IsAside until)))

  pub claim_dead-IsAside :
      (grant expected now until : ℕ) → IsAside (claim_dead fails grant expected now until)
  unfolding claim_dead
  claim_dead-IsAside grant expected now until =
      checked-IsAside (grant == 0 || expected == 0 || now == 0 || not (ltb now until)) invalid _ (
        bind-IsAside (lift (next_attempt expected)) _ (lift-IsAside (next_attempt expected))
          λ attempts.
            bind-IsAside _ _
              (guarded-IsAside Call.claim_row
                (λ db.
                  put_outboxes StoreError.conflict
                    (update_row
                      (λ x.
                        x.reward_grant_id == grant
                        && text_eq x.status "dead"
                        && x.attempts == expected)
                      (leased until attempts) db.outboxes)
                    db)
                (λ db.
                  put_outboxes-Same StoreError.conflict
                    (update_row
                      (λ x.
                        x.reward_grant_id == grant
                        && text_eq x.status "dead"
                        && x.attempts == expected)
                      (leased until attempts) db.outboxes)
                    db))
              (λ _. find_by_grant-IsAside grant))
