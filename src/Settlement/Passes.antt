-- ===== src/Settlement/Passes.antt =====
-- The passes of `SettlementService`: what the worker, the reconciler, a targeted retry and a
-- rollback do with one grant, and the loops over many.
use meta_pulse.Prelude.{
  ℕ, ◌+◌, ◌==◌, Bool, ◌&&◌, ◌||◌, not, Option, none, some, String, List, [], ◌∷◌, length,
  if◌then◌else◌,
}
use meta_pulse.Prelude.Text.{text_eq, is_blank, is_valid_text, trim_space}
use meta_pulse.Prelude.Result.{Result, ok, err}
use meta_pulse.Prelude.Tx.{◌>>=◌, ◌>>◌, done, refuse, refuse_if}
use meta_pulse.Budget.{release_budget}
use meta_pulse.RewardStore.{
  Grant, Outbox, Db, Tx, StoreError, invalid, settlement_conflict, not_dead, only_settled,
  experience_reward, unreachable, read_grant, lock_grant, commit, commit_second, Codec, find_grant,
  find_grant_by_public_id, find_by_grant, get_budget_for_update, save_budget, transition_grant,
  claim_due, claim_dead, list_for_reconciliation, run_tx,
}
use meta_pulse.Settlement.Service.{
  Config, Reply, ClientError, payload_conflict, Reason, not_loaded, grant_ref_mismatch,
  query_ref_mismatch, was_rolled_back, benefit_conflict, unconfirmed, inconsistent_state, World,
  same_source_ref, budget_step, either, load_settlement, complete, retry, fail_payload,
}

-- What `processOne` decides of the answers.
pub data Verdict : Type 0 where
  completes : Verdict
  conflicts : Reason → Verdict
  retries : Verdict

-- The answer to `Query`, which `processOne` asks when `Grant` leaves the outcome open.
unfoldable pub judge_query : String → Result ClientError Reply → Verdict
judge_query expected (err e) = retries
judge_query expected (ok s) =
    if s.applied && same_source_ref s.source_ref expected
    then completes
    else if s.rolled_back && same_source_ref s.source_ref expected
    then conflicts was_rolled_back
    else if not (same_source_ref s.source_ref expected)
    then conflicts query_ref_mismatch
    else retries

-- The answer to `Grant`.
unfoldable pub judge : String → Result ClientError Reply → Result ClientError Reply → Verdict
judge expected (err payload_conflict) query = conflicts benefit_conflict
judge expected (err _) query = judge_query expected query
judge expected (ok r) query =
    if not (same_source_ref r.source_ref expected)
    then conflicts grant_ref_mismatch
    else if r.applied
    then completes
    else if r.rolled_back
    then conflicts was_rolled_back
    else judge_query expected query

-- `err` of a call of the benefit service, passed on.
abbrev pub answer : Result ClientError Reply → Tx Reply
answer (err e) db = (err unreachable, db)
answer (ok r) db = (ok r, db)

-- Other transactions commit.
abbrev pub pause : World → Tx (Unit {0})
pause w db = (ok tt, w.between db)

-- `Reconcile`'s verdict on one answer; `none` leaves the row alone.
unfoldable pub judge_state : String → Reply → Option Verdict
judge_state expected s =
    if s.rolled_back && same_source_ref s.source_ref expected
    then some (conflicts was_rolled_back)
    else if not (same_source_ref s.source_ref expected)
    then some (conflicts query_ref_mismatch)
    else if not s.applied
    then none
    else some completes

-- `RetryDead`'s: only an answer of `not_found` sends the grant again.
unfoldable pub judge_recovery : String → Reply → Option Verdict
judge_recovery expected s =
    if not (same_source_ref s.source_ref expected)
    then some (conflicts query_ref_mismatch)
    else if text_eq s.status "rolled_back"
    then some (conflicts was_rolled_back)
    else if text_eq s.status "applied" || text_eq s.status "already_applied"
    then (if not s.applied || s.rolled_back
        then some (conflicts inconsistent_state)
        else some completes)
    else if text_eq s.status "not_found"
    then (if s.applied || s.rolled_back then some (conflicts inconsistent_state) else none)
    else some (conflicts inconsistent_state)

-- `SettlementReport`
pub record Report : Type 0 where
  pub claimed : ℕ
  pub completed : ℕ
  pub retried : ℕ
  pub dead : ℕ
  pub failed : ℕ

-- One outcome, counted.
unfoldable pub counted : Result StoreError String → Report → Report
counted (err e) r = record r { failed = r.failed + 1 }
counted (ok status) r =
    if text_eq status "completed"
    then record r { completed = r.completed + 1 }
    else if text_eq status "retry"
    then record r { retried = r.retried + 1 }
    else if text_eq status "dead" || text_eq status "conflict"
    then record r { dead = r.dead + 1 }
    else r

-- `ReconciliationReport`
pub record Reconciliation : Type 0 where
  pub checked : ℕ
  pub settled : ℕ
  pub unchanged : ℕ
  pub failed : ℕ

-- How one row of `Reconcile` ends.
pub data Ending : Type 0 where
  settles unchanges fails_at fails_unchanged : Ending

unfoldable pub tallied : Ending → Reconciliation → Reconciliation
tallied settles r = record r { settled = r.settled + 1 }
tallied unchanges r = record r { unchanged = r.unchanged + 1 }
tallied fails_at r = record r { failed = r.failed + 1 }
tallied fails_unchanged r = record r { failed = r.failed + 1; unchanged = r.unchanged + 1 }

abbrev pub ending_of : {T : Type 0} → Ending → Result StoreError T × Db → Ending × Db
ending_of e (err x, db) = (fails_at, db)
ending_of e (ok y, db) = (e, db)

abbrev pub found_grant : (Grant → Db → Ending × Db) → Result StoreError Grant × Db → Ending × Db
found_grant next (err x, db) = (fails_at, db)
found_grant next (ok g, db) = next g db

-- The body of the transaction that ends `Rollback`, once the benefit is rolled back.
unfoldable pub reverse_grant : World → Grant → Tx (Unit {0})
reverse_grant w current =
    if text_eq current.status "reversed"
    then done tt
    else if not (text_eq current.status "settled")
    then refuse only_settled
    else do
      b ← get_budget_for_update w.fails current.period_id current.budget_type
      next ← budget_step (release_budget b current.amount)
      save_budget w.fails next
      transition_grant w.fails current.id "settled" "reversed" w.now

unfoldable pub reverse : World → Grant → Tx (Unit {0})
reverse w g =
    run_tx w.fails commit_second
      do current ← find_grant w.fails lock_grant g.id; reverse_grant w current

-- The status test in the first transaction of `Rollback`.
abbrev pub reversible : Grant → Tx Grant
reversible g = do
  refuse_if (not (text_eq g.status "reversed") && not (text_eq g.status "settled")) only_settled
  done g

-- `Rollback` after its first transaction.
unfoldable pub rollback_settled : World → String → Grant → Tx (Unit {0})
rollback_settled w reason g =
    if text_eq g.status "reversed"
    then done tt
    else if text_eq g.reward_type "community_exp"
    then refuse experience_reward
    else do
      s ← answer (w.client.rollback g.source_ref reason)
      refuse_if (not s.rolled_back || s.applied || not (same_source_ref s.source_ref g.source_ref))
          settlement_conflict
      pause w
      reverse w g

-- `Rollback`
unfoldable pub rollback : World → ℕ → String → Tx (Unit {0})
rollback w id reason = do
  refuse_if (id == 0 || is_blank reason) invalid
  g ← run_tx w.fails commit (find_grant w.fails lock_grant id >>= reversible)
  rollback_settled w reason g

module _ (cfg : Config) (describe : Reason → String) (k : Codec) where
  unfoldable pub enact : World → Outbox → Grant → Verdict → Tx String
  enact w o g completes = do complete w o g; done "completed"
  enact w o g (conflicts reason) = fail_payload cfg describe k w o reason
  enact w o g retries = retry cfg describe k w o unconfirmed

  -- `processOne`
  unfoldable pub process_one : World → Outbox → Tx String
  process_one w o db =
      either (λ e. (do pause w; fail_payload cfg describe k w o (not_loaded e)))
        (λ (g, p). (do
          pause w
          enact w o g
              (judge g.source_ref (w.client.grant p o.payload_hash) (w.client.query g.source_ref))))
        (load_settlement w k o db)

  -- The loop of `ProcessBatch`, with the world that each row meets.
  unfoldable pub process_all : (Outbox → World) → List Outbox → Report → Db → Report × Db
  process_all worlds [] report db = (report, db)
  process_all worlds (o ∷ rest) report db =
      let (status, next) = process_one (worlds o) o db in
      process_all worlds rest (counted status report) next

  abbrev pub processed :
      (Outbox → World) → Result StoreError (List Outbox) × Db → Result StoreError Report × Db
  processed worlds (err e, db) = (err e, db)
  processed worlds (ok claimed, db) =
      let (report, next) =
        process_all worlds claimed
          (record { claimed = length claimed; completed = 0; retried = 0; dead = 0; failed = 0 })
          db in
      (ok report, next)

  -- `ProcessBatch`
  unfoldable pub process_batch : World → (Outbox → Bool) → (Outbox → World) → Tx Report
  process_batch w locked worlds db =
      processed worlds (
        run_tx w.fails commit (claim_due w.fails locked w.now cfg.batch_size (w.now + cfg.lease))
          db)

  unfoldable pub settle_state : World → Outbox → Grant → Option Verdict → Db → Ending × Db
  settle_state w o g none db = (unchanges, db)
  settle_state w o g (some completes) db = ending_of settles (complete w o g db)
  settle_state w o g (some (conflicts reason)) db =
      ending_of unchanges (fail_payload cfg describe k w o reason db)
  settle_state w o g (some retries) db = (unchanges, db)

  unfoldable pub reconcile_answer :
      World → Outbox → Grant → Result ClientError Reply → Db → Ending × Db
  reconcile_answer w o g (err e) db = (fails_unchanged, db)
  reconcile_answer w o g (ok s) db = settle_state w o g (judge_state g.source_ref s) db

  -- One round of the loop of `Reconcile`.
  unfoldable pub reconcile_one : World → Outbox → Db → Ending × Db
  reconcile_one w o db =
      found_grant (λ g d. reconcile_answer w o g (w.client.query g.source_ref) (w.between d))
        (run_tx w.fails commit (find_grant w.fails read_grant o.reward_grant_id) db)

  unfoldable pub reconcile_all :
      (Outbox → World) → List Outbox → Reconciliation → Db → Reconciliation × Db
  reconcile_all worlds [] report db = (report, db)
  reconcile_all worlds (o ∷ rest) report db =
      let (ending, next) = reconcile_one (worlds o) o db in
      reconcile_all worlds rest (tallied ending (record report { checked = report.checked + 1 }))
        next

  abbrev pub reconciled :
      (Outbox → World)
      → Result StoreError (List Outbox) × Db
      → Result StoreError Reconciliation × Db
  reconciled worlds (err e, db) = (err e, db)
  reconciled worlds (ok rows, db) =
      let (report, next) =
        reconcile_all worlds rows (record { checked = 0; settled = 0; unchanged = 0; failed = 0 })
          db in
      (ok report, next)

  -- `Reconcile`
  unfoldable pub reconcile : World → (Outbox → World) → Tx Reconciliation
  reconcile w worlds db =
      reconciled worlds (run_tx w.fails commit (list_for_reconciliation w.fails cfg.batch_size) db)

  -- `RetryDead` after the query: the dead row is claimed and processed.
  unfoldable pub retry_claimed : World → World → Outbox → Grant → Option Verdict → Tx String
  retry_claimed w again o g (some v) = enact w o g v
  retry_claimed w again o g none = do
    claimed ←
        run_tx w.fails commit_second (claim_dead w.fails g.id o.attempts w.now (w.now + cfg.lease))
    process_one again claimed

  unfoldable pub recover : World → World → Outbox → Tx String
  recover w again o db =
      either (λ e. fail_payload cfg describe k w o (not_loaded e))
        (λ (g, p). (do
          s ← answer (w.client.query g.source_ref)
          pause w
          retry_claimed w again o g (judge_recovery g.source_ref s)))
        (load_settlement w k o db)

  unfoldable pub retry_found : World → World → Grant × Outbox → Tx String
  retry_found w again (g, o) =
      if text_eq g.status "settled" && text_eq o.status "completed"
      then done "completed"
      else if not (text_eq g.status "pending") || not (text_eq o.status "dead")
      then refuse not_dead
      else recover w again o

  -- `RetryDead`; `again` is the world that the new attempt meets.
  unfoldable pub retry_dead : World → World → String → Tx String
  retry_dead w again key = do
    refuse_if (not (is_valid_text 64 (trim_space key))) invalid
    loaded ← run_tx w.fails commit (do
      g ← find_grant_by_public_id w.fails (trim_space key)
      o ← find_by_grant w.fails g.id
      done (g, o))
    retry_found w again loaded
