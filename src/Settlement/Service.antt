-- ===== src/Settlement/Service.antt =====
-- `SettlementService` (services/pulse/internal/service/settlement.go). The benefit service is a
-- record of its answers; a `World` is what one pass meets: the answers, the calls of the database
-- that fail, what others commit between the pass's two transactions, and the clock.
use meta_pulse.Prelude.{
  ℕ, ◌==◌, leb, Bool, true, ◌&&◌, ◌||◌, not, Option, none, some, String, List, if◌then◌else◌,
}
use meta_pulse.Prelude.Int.{pos, leb_ℤ, eqb_ℤ}
use meta_pulse.Prelude.Text.{text_eq, is_empty, is_blank, take_bytes}
use meta_pulse.Prelude.Result.{Result, ok, err}
use meta_pulse.Prelude.Tx.{◌>>=◌, ◌>>◌, done, refuse, refuse_if}
use meta_pulse.Budget.{Budget, BudgetError, settle_budget}
use meta_pulse.RewardStore.{
  Grant, Outbox, Db, Tx, Call, StoreError, invalid_payload, not_found, unexpected_status, budget,
  read_grant, lock_grant, commit, commit_second, Payload, Codec, end_of_input, another_value,
  broken, find_grant, get_budget_for_update, save_budget, transition_grant, mark_award_settled,
  save_outbox, run_tx,
}
use meta_pulse.Settlement.{backoff, later}

pub record Config : Type 0 where
  pub batch_size : ℕ
  pub lease : ℕ
  pub base_backoff : ℕ
  pub max_backoff : ℕ
  pub max_attempts : ℕ

-- `BenefitGrantResponse` and `BenefitState`
pub record Reply : Type 0 where
  pub applied : Bool
  pub rolled_back : Bool
  pub status : String
  pub source_ref : String

pub data ClientError : Type 0 where
  payload_conflict other : ClientError

-- `BenefitClient`; a grant request is the payload with its hash.
pub record Client : Type 0 where
  pub grant : Payload → String → Result ClientError Reply
  pub query : String → Result ClientError Reply
  pub rollback : String → String → Result ClientError Reply

pub data Reason : Type 0 where
  not_loaded : StoreError → Reason
  grant_ref_mismatch query_ref_mismatch was_rolled_back benefit_conflict unconfirmed
        inconsistent_state :
      Reason

pub record World : Type 0 where
  pub fails : Call → Bool
  pub between : Db → Db
  pub client : Client
  pub now : ℕ

-- `sameSourceRef`
abbrev pub same_source_ref : String → String → Bool
same_source_ref actual expected = not (is_empty expected) && text_eq actual expected

abbrev pub budget_step : Result BudgetError Budget → Tx Budget
budget_step (err e) db = (err (budget e), db)
budget_step (ok b) db = (ok b, db)

-- What follows an attempt that may fail.
abbrev pub either :
    {T U : Type 0}
    → (StoreError → Tx U)
    → (T → Tx U)
    → Result StoreError T × Db
    → Result StoreError U × Db
either on_error on_value (err e, db) = on_error e db
either on_error on_value (ok x, db) = on_value x db

-- The test of the loaded grant in `loadSettlement`.
unfoldable pub is_payable : Grant → Bool
is_payable g = not (
    is_empty g.grant_id
    || is_empty g.source_ref
    || g.user_id == 0
    || leb_ℤ g.amount (pos 0)
    || is_blank g.budget_type
    || not (text_eq g.status "pending"))

-- `canonicalJSONHash`: the hash of the bytes themselves if they are not one value.
unfoldable pub canonical_json_hash : Codec → List ℕ → String
canonical_json_hash k payload = elim (k.reencode payload) [
  | none ↦ k.sha256_hex payload
  | some canonical ↦ elim (k.trailing payload) [
    | end_of_input ↦ k.sha256_hex canonical
    | another_value ↦ k.sha256_hex payload
    | broken ↦ k.sha256_hex payload
  ]
]

-- `settlementLegacyPayloadHash`
unfoldable pub legacy_payload_hash : Codec → List ℕ → String
legacy_payload_hash k payload = elim (k.unmarshal payload) [
  | none ↦ ""
  | some value ↦ k.sha256_hex (k.marshal value)
]

-- `decodeStrictJSON`
unfoldable pub decode_strict_json : Codec → List ℕ → Option Payload
decode_strict_json k payload = elim (k.decode_first payload) [
  | none ↦ none
  | some value ↦ elim (k.trailing payload) [
    | end_of_input ↦ some value
    | another_value ↦ none
    | broken ↦ none
  ]
]

unfoldable pub is_hashed : Codec → Outbox → Bool
is_hashed k o =
    not (is_empty o.payload_hash)
    && (text_eq (canonical_json_hash k o.payload_json) o.payload_hash
        || text_eq (legacy_payload_hash k o.payload_json) o.payload_hash)

-- The comparison of the payload with the grant in `loadSettlement`.
unfoldable pub is_payload_of : Grant → Payload → Bool
is_payload_of g p =
    not (text_eq g.reward_type "community_exp")
    && text_eq p.grant_id g.grant_id
    && text_eq p.grant_id p.source_ref
    && p.user_id == g.user_id
    && eqb_ℤ p.amount g.amount
    && text_eq p.source_ref g.source_ref
    && not p.transferable_quota
    && text_eq p.reward_type g.reward_type

abbrev pub decoded : Option Payload → Tx Payload
decoded none = refuse invalid_payload
decoded (some p) = done p

-- `loadSettlement`
unfoldable pub load_settlement : World → Codec → Outbox → Tx (Grant × Payload)
load_settlement w k o = do
  g ← run_tx w.fails commit (find_grant w.fails read_grant o.reward_grant_id)
  refuse_if (not (is_payable g)) invalid_payload
  refuse_if (not (is_hashed k o)) invalid_payload
  p ← decoded (decode_strict_json k o.payload_json)
  refuse_if (not (is_payload_of g p)) invalid_payload
  done (g, p)

-- The part of `complete` for a grant that is not settled yet.
unfoldable pub settle_grant : World → Grant → Tx (Unit {0})
settle_grant w current = do
  refuse_if (not (text_eq current.status "pending")) unexpected_status
  b ← get_budget_for_update w.fails current.period_id current.budget_type
  next ← budget_step (settle_budget b current.amount)
  save_budget w.fails next
  transition_grant w.fails current.id "pending" "settled" w.now

abbrev pub completed : ℕ → Outbox → Outbox
completed now o = record o {
  status = "completed";
  leased_until = none;
  last_error = "";
  completed_at = some now;
}

abbrev pub forgive : Bool → Result StoreError (Unit {0}) × Db → Result StoreError (Unit {0}) × Db
forgive true (err not_found, db) = (ok tt, db)
forgive _ r = r

-- The body of the transaction in `complete`, once the grant is locked.
unfoldable pub complete_grant : World → Outbox → Grant → Tx (Unit {0})
complete_grant w o current = do
  (if text_eq current.status "settled" then done tt else settle_grant w current)
  mark_award_settled w.fails current.grant_id
  λ db. forgive (text_eq current.status "settled") (save_outbox w.fails (completed w.now o) db)

-- `complete`
unfoldable pub complete : World → Outbox → Grant → Tx (Unit {0})
complete w o g =
    run_tx w.fails commit_second
      do current ← find_grant w.fails lock_grant g.id; complete_grant w o current

-- `saveOutbox`
unfoldable pub save_outcome : World → Outbox → Tx (Unit {0})
save_outcome w o = run_tx w.fails commit_second (save_outbox w.fails o)

module _ (cfg : Config) (describe : Reason → String) (k : Codec) where
  -- `truncateError`
  abbrev pub last_error : Reason → String
  last_error reason = take_bytes 1000 (describe reason)

  -- `retry`
  unfoldable pub retry : World → Outbox → Reason → Tx String
  retry w o reason =
      let is_dead = leb cfg.max_attempts o.attempts in
      let status = if is_dead then "dead" else "retry" in
      do
        save_outcome w (record o {
          status = status;
          leased_until = none;
          last_error = last_error reason;
          next_attempt_at =
              if is_dead
              then w.now
              else later w.now (backoff (pos cfg.base_backoff) (pos cfg.max_backoff) o.attempts);
        })
        done status

  -- `failPayload`
  unfoldable pub fail_payload : World → Outbox → Reason → Tx String
  fail_payload w o reason = do
    save_outcome w (record o {
      status = "conflict";
      leased_until = none;
      next_attempt_at = w.now;
      last_error = last_error reason;
    })
    done "conflict"
