-- ===== src/Idempotency.antt =====
-- The table of idempotent requests (`idempotencyRepository` of
-- services/pulse/internal/store/mysql/reward.go).
pub mod Kept
mod Tests
use meta_pulse.Prelude.{
  ℕ, ◌+◌, ◌==◌, leb, Bool, true, false, ◌&&◌, ◌||◌, not, Option, none, some, String, List, [], ◌∷◌,
  ◌++◌, length, if◌then◌else◌,
}
use meta_pulse.Prelude.Int.{ℤ, pos, leb_ℤ, ltb_ℤ, eqb_ℤ}
use meta_pulse.Prelude.Text.{text_eq, is_valid_text, is_digest, has_prefix}
use meta_pulse.Prelude.Result.{Result, ok, err}
use meta_pulse.Prelude.Tx.{Tx as TxOf, ◌>>=◌, ◌>>◌, refuse_if, after}
use meta_pulse.Prelude.Table.{find_row, update_row}
use meta_pulse.RewardStore.{Codec, canonical_payload_hash}

-- `IdempotencyRecord`
pub record Request : Type 0 where
  pub id : ℕ
  pub scope : String
  pub key : String
  pub payload_hash : String
  pub response_status : Option ℤ
  pub response_json : List ℕ
  pub resource_type : String
  pub resource_id : String
  pub expires_at : Option ℕ

pub record Requests : Type 0 where
  pub rows : List Request
  pub next_id : ℕ

pub data RequestError : Type 0 where
  infrastructure conflict : RequestError

pub data RequestCall : Type 0 where
  lock_guard ensure_row lock_row save_row : RequestCall

abbrev pub Tx : Type 0 → Type 0
Tx T = TxOf Requests RequestError T

-- `validateIdempotencyIdentity`
unfoldable pub is_identity : String → String → String → Bool
is_identity scope key hash = is_valid_text 128 scope && is_valid_text 191 key && is_digest hash

abbrev is_status : (ℤ → Bool) → Option ℤ → Bool
is_status test none = false
is_status test (some s) = test s

abbrev is_zero_time : Option ℕ → Bool
is_zero_time none = false
is_zero_time (some t) = t == 0

abbrev is_some : Option String → Bool
is_some none = false
is_some (some _) = true

-- A stored refusal of an action.
abbrev is_refusal : Request → Bool
is_refusal r =
    is_status (λ s. eqb_ℤ s (pos 409)) r.response_status
    && text_eq r.resource_type "action_refusal"
    && (has_prefix "pulse_action_request:" r.scope || has_prefix "pulse_action_identity:" r.scope)

-- `validateIdempotencySave`
unfoldable pub is_request_save : Codec → Request → Bool
is_request_save k r =
    not (r.id == 0)
    && is_identity r.scope r.key r.payload_hash
    && is_status (λ s. is_refusal r || (leb_ℤ (pos 200) s && ltb_ℤ s (pos 300))) r.response_status
    && not (length r.response_json == 0)
    && leb (length r.response_json) 65536
    && is_valid_text 64 r.resource_type
    && is_valid_text 191 r.resource_id
    && not (is_zero_time r.expires_at)
    && is_some (canonical_payload_hash k r.response_json)

-- `scope = ? AND idempotency_key = ?`
abbrev pub is_request : String → String → Request → Bool
is_request scope key r = text_eq r.scope scope && text_eq r.key key

abbrev pub is_open_request : Option ℤ → Bool
is_open_request none = true
is_open_request (some _) = false

-- The fence of `Save`, and the columns that it writes; the response goes to a JSON column.
abbrev pub is_unanswered : Request → Request → Bool
is_unanswered q r =
    r.id == q.id
    && text_eq r.scope q.scope
    && text_eq r.key q.key
    && text_eq r.payload_hash q.payload_hash
    && is_open_request r.response_status

abbrev pub with_response : Codec → Request → Request → Request
with_response k q r = record r {
  response_status = q.response_status;
  response_json = k.column q.response_json;
  resource_type = q.resource_type;
  resource_id = q.resource_id;
  expires_at = q.expires_at;
}

-- A locking read of one row; no row is an error as well.
abbrev pub one_row : Option Request → Tx Request
one_row none db = (err infrastructure, db)
one_row (some r) db = (ok r, db)

-- The row of a new request.
abbrev pub new_request : Requests → String → String → String → Request
new_request db scope key hash = record {
  id = db.next_id;
  scope = scope;
  key = key;
  payload_hash = hash;
  response_status = none;
  response_json = [];
  resource_type = "";
  resource_id = "";
  expires_at = none;
}

-- `INSERT … ON DUPLICATE KEY UPDATE`: a row of the same scope and key stays as it is.
abbrev pub ensured : String → String → String → Option Request → Requests → Requests
ensured scope key hash none db = record db {
  rows = db.rows ++ new_request db scope key hash ∷ [];
  next_id = db.next_id + 1;
}
ensured scope key hash (some _) db = db

abbrev pub put_requests : Option (List Request) → Tx (Unit {0})
put_requests none db = (err conflict, db)
put_requests (some rows) db = (ok tt, record db { rows = rows })

module _ (fails : RequestCall → Bool) where
  abbrev pub reaching : {T : Type 0} → RequestCall → Tx T → Tx T
  reaching c act db = if fails c then (err infrastructure, db) else act db

  abbrev pub lock_request : RequestCall → String → String → Tx Request
  lock_request c scope key = reaching c (λ db. one_row (find_row (is_request scope key) db.rows) db)

  abbrev pub ensure_request : String → String → String → Tx (Unit {0})
  ensure_request scope key hash =
      reaching ensure_row
        (λ db. (ok tt, ensured scope key hash (find_row (is_request scope key) db.rows) db))

  -- `GetOrCreateForUpdate`; the guard of rule changes is a row that a migration seeds.
  unfoldable pub get_or_create_request : String → String → String → Tx Request
  get_or_create_request scope key hash = do
    refuse_if (not (is_identity scope key hash)) conflict
    if text_eq scope "period_create_lock" && text_eq key "global"
        then lock_request lock_guard scope key
        else (do ensure_request scope key hash; lock_request lock_row scope key)

  -- `Save`
  unfoldable pub save_response : Codec → Request → Tx (Unit {0})
  save_response k q = do
    refuse_if (not (is_request_save k q)) conflict
    reaching save_row
        (λ db. put_requests (update_row (is_unanswered q) (with_response k q) db.rows) db)
