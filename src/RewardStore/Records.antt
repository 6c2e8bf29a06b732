-- ===== src/RewardStore/Records.antt =====
-- The rows and the tables. An optional time is an `Option`; 0 is the zero time.
use meta_pulse.Prelude.{ℕ, Bool, Option, none, some, String, List}
use meta_pulse.Prelude.Int.{ℤ}
use meta_pulse.Prelude.Tx.{Tx as TxOf}
use meta_pulse.Budget.{Budget, BudgetError}

-- `RewardGrant`
pub record Grant : Type 0 where
  pub id : ℕ
  pub grant_id : String
  pub period_id : ℕ
  pub user_id : ℕ
  pub action_id : String
  pub trigger_type : String
  pub reward_definition_id : ℕ
  pub reward_type : String
  pub amount : ℤ
  pub transferable_quota : Bool
  pub budget_type : String
  pub random_value : String
  pub config_version : String
  pub status : String
  pub source_ref : String
  pub reason : String
  pub settled_at : Option ℕ
  pub reversed_at : Option ℕ
  pub created_at : ℕ

-- `SettlementOutbox`; the payload is a list of bytes.
pub record Outbox : Type 0 where
  pub id : ℕ
  pub reward_grant_id : ℕ
  pub operation : String
  pub payload_hash : String
  pub payload_json : List ℕ
  pub status : String
  pub attempts : ℕ
  pub next_attempt_at : ℕ
  pub leased_until : Option ℕ
  pub last_error : String
  pub completed_at : Option ℕ
  pub created_at : ℕ

-- The columns of a content award that a settlement reads or writes.
pub record Award : Type 0 where
  pub grant_id : String
  pub status : String
  pub budget_type : String

pub record Db : Type 0 where
  pub budgets : List Budget
  pub grants : List Grant
  pub next_grant : ℕ
  pub outboxes : List Outbox
  pub next_outbox : ℕ
  pub awards : List Award

pub data StoreError : Type 0 where
  infrastructure not_found conflict invalid attempt_overflow : StoreError
  invalid_payload settlement_conflict not_dead unexpected_status only_settled experience_reward
        unreachable :
      StoreError
  budget : BudgetError → StoreError

-- The calls of the database in one use case.
pub data Call : Type 0 where
  read_grant read_public_grant read_outbox lock_grant lock_budget write_budget : Call
  write_grant insert_grant read_new_grant insert_outbox mark_award : Call
  write_outbox select_due lease_due claim_row list_rows commit commit_second : Call

abbrev pub Tx : Type 0 → Type 0
Tx T = TxOf Db StoreError T

abbrev pub of_time : Option ℕ → ℕ
of_time none = 0
of_time (some t) = t

-- `settlementPayload`, and `BenefitGrantRequest` with the hash.
pub record Payload : Type 0 where
  pub grant_id : String
  pub user_id : ℕ
  pub amount : ℤ
  pub transferable_quota : Bool
  pub source_ref : String
  pub reward_type : String

-- What a second `Decode` reports after the first value.
pub data Trailing : Type 0 where
  end_of_input another_value broken : Trailing

-- encoding/json and crypto/sha256 on the bytes of a payload, and the JSON columns of MySQL, which
-- may give back other bytes than were written: keys in another order, other white space.
pub record Codec : Type 0 where
  pub reencode : List ℕ → Option (List ℕ)
  pub trailing : List ℕ → Trailing
  pub decode_first : List ℕ → Option Payload  -- `Decoder.Decode`
  pub unmarshal : List ℕ → Option Payload  -- `json.Unmarshal`
  pub marshal : Payload → List ℕ  -- of the struct
  pub marshal_sorted : Payload → List ℕ  -- of a map with the same keys
  pub column : List ℕ → List ℕ  -- the bytes that a JSON column gives back
  pub sha256_hex : List ℕ → String
