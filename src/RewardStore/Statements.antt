-- ===== src/RewardStore/Statements.antt =====
-- The statements of the repositories, one function per method. `fails` decides which call of the
-- database fails.
use meta_pulse.Prelude.{
  ℕ, ◌+◌, ◌-◌, ◌==◌, leb, ltb, Bool, true, false, ◌&&◌, ◌||◌, not, Option, none, some, String, List,
  [], ◌∷◌, ◌++◌, if◌then◌else◌,
}
use meta_pulse.Prelude.Text.{text_eq, is_valid_text}
use meta_pulse.Prelude.Result.{Result, ok, err}
use meta_pulse.Prelude.Tx.{◌>>=◌, ◌>>◌, done, refuse, refuse_if, lift, finish}
use meta_pulse.Prelude.Table.{find_row, update_row, select_rows}
use meta_pulse.Budget.{Budget}
use meta_pulse.RewardStore.Records.{
  Grant, Outbox, Award, Tx, Call, StoreError, infrastructure, not_found, conflict, invalid,
  attempt_overflow, Codec, read_public_grant, read_outbox, lock_budget, write_budget, write_grant,
  insert_grant, read_new_grant, insert_outbox, mark_award, write_outbox, select_due, lease_due,
  claim_row, list_rows,
}
use meta_pulse.RewardStore.Validate.{
  is_budget_save, is_grant_create, is_outbox_create, is_outbox_update,
}

abbrev pub max_uint32 : ℕ
max_uint32 = 4294967295

-- `period_id = ? AND budget_type = ?`
abbrev pub is_pool : ℕ → String → Budget → Bool
is_pool period kind b = b.period_id == period && text_eq b.budget_type kind

abbrev pub is_grant : ℕ → Grant → Bool
is_grant id g = g.id == id

abbrev pub found : {R : Type 0} → Option R → Tx R
found none db = (err not_found, db)
found (some r) db = (ok r, db)

abbrev pub put_budgets : Option (List Budget) → Tx (Unit {0})
put_budgets none db = (err conflict, db)
put_budgets (some rows) db = (ok tt, record db { budgets = rows })

abbrev pub put_grants : Option (List Grant) → Tx (Unit {0})
put_grants none db = (err conflict, db)
put_grants (some rows) db = (ok tt, record db { grants = rows })

abbrev pub put_outboxes : StoreError → Option (List Outbox) → Tx (Unit {0})
put_outboxes e none db = (err e, db)
put_outboxes e (some rows) db = (ok tt, record db { outboxes = rows })

-- The version and the three amounts, written by `SaveBudget`.
abbrev pub with_amounts : Budget → Budget → Budget
with_amounts b r = record r {
  reserved = b.reserved;
  settled = b.settled;
  released = b.released;
  version = b.version;
}

abbrev pub is_version : Budget → Budget → Bool
is_version b r = r.id == b.id && r.version == b.version - 1

-- The columns that `SaveOutbox` writes, and the row that it is for.
abbrev pub with_outcome : Outbox → Outbox → Outbox
with_outcome o r = record r {
  status = o.status;
  attempts = o.attempts;
  next_attempt_at = o.next_attempt_at;
  leased_until = o.leased_until;
  last_error = o.last_error;
  completed_at = o.completed_at;
}

abbrev pub is_open : Outbox → Bool
is_open r = text_eq r.status "processing" || text_eq r.status "retry" || text_eq r.status "dead"

abbrev pub is_fenced : Outbox → Outbox → Bool
is_fenced o r = r.id == o.id && r.attempts == o.attempts && is_open r

abbrev pub leased : ℕ → ℕ → Outbox → Outbox
leased until attempts r = record r {
  status = "processing";
  leased_until = some until;
  attempts = attempts;
}

-- `nextSettlementAttempt`
abbrev pub next_attempt : ℕ → Result StoreError ℕ
next_attempt current = if current == max_uint32 then err attempt_overflow else ok (current + 1)

-- `next_attempt_at <= ? AND (leased_until IS NULL OR leased_until < ?)` on the statuses of `ClaimDue`.
abbrev pub is_expired : ℕ → Option ℕ → Bool
is_expired now none = true
is_expired now (some t) = ltb t now

abbrev pub is_due : ℕ → Outbox → Bool
is_due now r =
    (text_eq r.status "pending" || text_eq r.status "retry" || text_eq r.status "processing")
    && leb r.next_attempt_at now
    && is_expired now r.leased_until

unfoldable pub take {ℓ} : {A : Type ℓ} → ℕ → List A → List A
take ℕ.zero xs = []
take (ℕ.suc n) [] = []
take (ℕ.suc n) (x ∷ xs) = x ∷ take n xs

-- `status = ?` of the row and the reward type that a reversal of a pending grant asks for.
abbrev pub is_from : ℕ → String → Bool → Grant → Bool
is_from id from experience_only g =
    g.id == id
    && text_eq g.status from
    && (not experience_only || text_eq g.reward_type "community_exp")

abbrev pub is_taken : {R : Type 0} → Option R → Bool
is_taken none = false
is_taken (some _) = true

-- An outbox row of community experience waits under its own status, and no other row does.
abbrev pub is_community_mismatch : Grant → Outbox → Bool
is_community_mismatch g o =
    (text_eq g.reward_type "community_exp"
      && not (text_eq o.status "community_pending")
      && not (text_eq o.status "shadow"))
    || (not (text_eq g.reward_type "community_exp") && text_eq o.status "community_pending")

abbrev pub is_pending_award : String → Award → Bool
is_pending_award key a =
    text_eq a.grant_id key && text_eq a.status "pending" && text_eq a.budget_type "content_reward"

abbrev pub is_many : List Award → Bool
is_many [] = false
is_many (a ∷ []) = false
is_many (a ∷ b ∷ rest) = true

unfoldable pub settle_awards : String → List Award → List Award
settle_awards key [] = []
settle_awards key (a ∷ rest) =
    (if is_pending_award key a then record a { status = "settled" } else a) ∷ settle_awards key rest

module _ (fails : Call → Bool) where
  abbrev pub guarded : {T : Type 0} → Call → Tx T → Tx T
  guarded c act db = if fails c then (err infrastructure, db) else act db

  -- `GetBudgetForUpdate`
  unfoldable pub get_budget_for_update : ℕ → String → Tx Budget
  get_budget_for_update period kind = do
    refuse_if (period == 0 || not (is_valid_text 64 kind)) invalid
    guarded lock_budget (λ db. found (find_row (is_pool period kind) db.budgets) db)

  -- `SaveBudget`
  unfoldable pub save_budget : Budget → Tx (Unit {0})
  save_budget b = do
    refuse_if (not (is_budget_save b)) conflict
    guarded write_budget
        (λ db. put_budgets (update_row (is_version b) (with_amounts b) db.budgets) db)

  -- `FindGrantByID`, and `FindGrantByIDForUpdate` with the call `lock_grant`.
  unfoldable pub find_grant : Call → ℕ → Tx Grant
  find_grant c id = do
    refuse_if (id == 0) invalid
    guarded c (λ db. found (find_row (is_grant id) db.grants) db)

  -- `FindGrantByPublicID`
  unfoldable pub find_grant_by_public_id : String → Tx Grant
  find_grant_by_public_id key = do
    refuse_if (not (is_valid_text 64 key)) invalid
    guarded read_public_grant (λ db. found (find_row (λ g. text_eq g.grant_id key) db.grants) db)

  -- `TransitionGrantStatus`
  unfoldable pub transition_grant : ℕ → String → String → ℕ → Tx (Unit {0})
  transition_grant id from to at = do
    refuse_if (id == 0 || at == 0) invalid
    if text_eq from "pending" && text_eq to "settled"
        then guarded write_grant (λ db.
          put_grants
            (update_row (is_from id from false)
              (λ g. record g { status = to; settled_at = some at }) db.grants)
            db)
        else if (text_eq from "settled" || text_eq from "pending") && text_eq to "reversed"
        then guarded write_grant (λ db.
          put_grants
            (update_row (is_from id from (text_eq from "pending"))
              (λ g. record g { status = to; reversed_at = some at }) db.grants)
            db)
        else refuse invalid

  -- `CreateGrant`: the unique keys refuse a second grant of one identity, source or action.
  unfoldable pub create_grant : Grant → Tx Grant
  create_grant g = do
    refuse_if (not (is_grant_create g)) conflict
    guarded insert_grant λ db.
        let row = record g { id = db.next_grant } in
        if is_taken (
          find_row
            (λ r.
              text_eq r.grant_id g.grant_id
              || text_eq r.source_ref g.source_ref
              || (r.period_id == g.period_id
                  && r.user_id == g.user_id
                  && text_eq r.action_id g.action_id))
            db.grants)
        then (err conflict, db)
        else (ok row, record db { grants = db.grants ++ row ∷ []; next_grant = db.next_grant + 1 })

  -- `CreateOutbox`: one row per grant.
  unfoldable pub create_outbox : Codec → Outbox → Tx Outbox
  create_outbox k o = do
    refuse_if (not (is_outbox_create k o)) conflict
    g ← guarded read_new_grant (λ db. found (find_row (is_grant o.reward_grant_id) db.grants) db)
    refuse_if (is_community_mismatch g o) conflict
    guarded insert_outbox λ db.
        let created = record o { id = db.next_outbox } in
        let row = record created { payload_json = k.column o.payload_json } in
        if is_taken (find_row (λ r. r.reward_grant_id == o.reward_grant_id) db.outboxes)
        then (err conflict, db)
        else (
          ok created,
          record db { outboxes = db.outboxes ++ row ∷ []; next_outbox = db.next_outbox + 1 },
        )

  -- `FindByGrant`
  unfoldable pub find_by_grant : ℕ → Tx Outbox
  find_by_grant id = do
    refuse_if (id == 0) invalid
    guarded read_outbox (λ db. found (find_row (λ o. o.reward_grant_id == id) db.outboxes) db)

  -- `SaveOutbox`
  unfoldable pub save_outbox : Outbox → Tx (Unit {0})
  save_outbox o = do
    refuse_if (not (is_outbox_update o)) conflict
    guarded write_outbox
        (λ db. put_outboxes not_found (update_row (is_fenced o) (with_outcome o) db.outboxes) db)

  -- `ListForReconciliation`
  unfoldable pub list_for_reconciliation : ℕ → Tx (List Outbox)
  list_for_reconciliation limit = do
    refuse_if (limit == 0 || ltb 5000 limit) invalid
    guarded list_rows (λ db. (ok (take limit (select_rows is_open db.outboxes)), db))

  -- The loop of `ClaimDue`, over the rows that were selected.
  unfoldable pub lease_rows : ℕ → List Outbox → Tx (List Outbox)
  lease_rows until [] = done []
  lease_rows until (r ∷ selected) = do
    attempts ← lift (next_attempt r.attempts)
    guarded lease_due (λ db.
        put_outboxes conflict
          (update_row (λ x. x.id == r.id && text_eq x.status r.status && x.attempts == r.attempts)
            (leased until attempts) db.outboxes)
          db)
    rest ← lease_rows until selected
    done (leased until attempts r ∷ rest)

  -- `ClaimDue`; `locked` are the rows that other transactions hold, which are skipped.
  unfoldable pub claim_due : (Outbox → Bool) → ℕ → ℕ → ℕ → Tx (List Outbox)
  claim_due locked now limit until = do
    refuse_if (limit == 0 || ltb 5000 limit) invalid
    refuse_if (now == 0 || not (ltb now until)) invalid
    selected ← guarded select_due (λ db.
        (ok (take limit (select_rows (λ r. is_due now r && not (locked r)) db.outboxes)), db))
    lease_rows until selected

  -- `ClaimDead`
  unfoldable pub claim_dead : ℕ → ℕ → ℕ → ℕ → Tx Outbox
  claim_dead grant expected now until = do
    refuse_if (grant == 0 || expected == 0 || now == 0 || not (ltb now until)) invalid
    attempts ← lift (next_attempt expected)
    guarded claim_row (λ db.
        put_outboxes conflict
          (update_row
            (λ x. x.reward_grant_id == grant && text_eq x.status "dead" && x.attempts == expected)
            (leased until attempts) db.outboxes)
          db)
    find_by_grant grant

  -- `MarkAwardSettledByGrantID` (store/mysql/admin.go)
  unfoldable pub mark_award_settled : String → Tx (Unit {0})
  mark_award_settled key = do
    refuse_if (not (is_valid_text 64 key)) conflict
    guarded mark_award λ db.
        if is_many (select_rows (is_pending_award key) db.awards)
        then (err conflict, db)
        else (ok tt, record db { awards = settle_awards key db.awards })

  -- `UnitOfWork.Do`, with the name of its commit.
  unfoldable pub run_tx : {T : Type 0} → Call → Tx T → Tx T
  run_tx c body db = finish (fails c) infrastructure db (body db)
