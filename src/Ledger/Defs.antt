-- ===== src/Ledger/Defs.antt =====
-- `ledger.go`, declaration by declaration.
use meta_pulse.Prelude.{
  ℕ, suc, String, Bool, true, false, not, ◌&&◌, ◌||◌, Option, none, some, List, [], ◌∷◌, ◌==◌,
}
use meta_pulse.Prelude.Int.{ℤ, pos, ltb_ℤ, leb_ℤ, eqb_ℤ}
use meta_pulse.Prelude.Word.{add_int64, sub_int64, add_uint64, max_int64, min_int64, max_uint64}
use meta_pulse.Prelude.Text.{text_eq, is_empty}
use meta_pulse.Prelude.Result.{Result, ok, err, ◌>>=◌, ◌>>◌, fail_if}

pub data AssetType : Type 0 where
  contribution ticket : AssetType
  other : String → AssetType

pub data Operation : Type 0 where
  contribution_earn contribution_reverse contribution_adjustment : Operation
  ticket_mint ticket_bonus ticket_spend ticket_reverse ticket_expire ticket_adjustment : Operation
  other : String → Operation

-- What an error that wraps `ErrInvalidEntry` says.
pub data Reason : Type 0 where
  missing_identity zero_amount missing_source earn_not_positive reverse_not_negation : Reason
  adjustment_without_reason operation_mismatch mint_not_positive debit_not_negative : Reason
  unknown_asset account_mismatch balance_mismatch invalid_account : Reason

pub data LedgerError : Type 0 where
  invalid_entry : Reason → LedgerError
  balance_overflow : LedgerError
  -- "entry %d: %w", the wrapping that `Rebuild` adds
  at_entry : ℕ → LedgerError → LedgerError

pub record Entry : Type 0 where
  pub id : ℕ
  pub user_id : ℕ
  pub period_id : ℕ
  pub asset_type : AssetType
  pub operation : Operation
  pub amount : ℤ
  pub balance_after : ℤ
  pub source_type : String
  pub source_ref : String
  pub idempotency_key : String
  pub payload_hash : String
  pub reversal_of_entry_id : Option ℕ
  pub reason : String
  pub metadata_json : List ℕ
  pub created_at : ℕ

pub record Account : Type 0 where
  pub id : ℕ
  pub user_id : ℕ
  pub period_id : ℕ
  pub asset_type : AssetType
  pub balance : ℤ
  pub version : ℕ

-- `asset == ""` and `operation == ""`
abbrev pub is_unset_asset : AssetType → Bool
is_unset_asset (AssetType.other s) = is_empty s
is_unset_asset _ = false

abbrev pub is_unset_operation : Operation → Bool
is_unset_operation (Operation.other s) = is_empty s
is_unset_operation _ = false

-- `a == b` on the string types.
abbrev pub asset_eq : AssetType → AssetType → Bool
asset_eq contribution contribution = true
asset_eq ticket ticket = true
asset_eq (AssetType.other s) (AssetType.other t) = text_eq s t
asset_eq _ _ = false

unfoldable pub operation_eq : Operation → Operation → Bool
operation_eq contribution_earn contribution_earn = true
operation_eq contribution_reverse contribution_reverse = true
operation_eq contribution_adjustment contribution_adjustment = true
operation_eq ticket_mint ticket_mint = true
operation_eq ticket_bonus ticket_bonus = true
operation_eq ticket_spend ticket_spend = true
operation_eq ticket_reverse ticket_reverse = true
operation_eq ticket_expire ticket_expire = true
operation_eq ticket_adjustment ticket_adjustment = true
operation_eq (Operation.other s) (Operation.other t) = text_eq s t
operation_eq _ _ = false

abbrev pub is_none : Option ℕ → Bool
is_none none = true
is_none (some _) = false

-- The inner `switch entry.Operation` of the two assets.
unfoldable pub validate_contribution : Operation → Entry → Result LedgerError (Unit {0})
validate_contribution contribution_earn e =
    fail_if (ltb_ℤ e.amount (pos 0)) (invalid_entry earn_not_positive)
validate_contribution contribution_reverse e =
    fail_if (ltb_ℤ (pos 0) e.amount || is_none e.reversal_of_entry_id)
      (invalid_entry reverse_not_negation)
validate_contribution contribution_adjustment e =
    fail_if (is_empty e.reason) (invalid_entry adjustment_without_reason)
validate_contribution _ e = err (invalid_entry operation_mismatch)

unfoldable pub validate_ticket : Operation → Entry → Result LedgerError (Unit {0})
validate_ticket ticket_mint e = fail_if (ltb_ℤ e.amount (pos 0)) (invalid_entry mint_not_positive)
validate_ticket ticket_bonus e = fail_if (ltb_ℤ e.amount (pos 0)) (invalid_entry mint_not_positive)
validate_ticket ticket_spend e = fail_if (ltb_ℤ (pos 0) e.amount) (invalid_entry debit_not_negative)
validate_ticket ticket_expire e =
    fail_if (ltb_ℤ (pos 0) e.amount) (invalid_entry debit_not_negative)
validate_ticket ticket_reverse e =
    fail_if (leb_ℤ (pos 0) e.amount || is_none e.reversal_of_entry_id)
      (invalid_entry reverse_not_negation)
validate_ticket ticket_adjustment e =
    fail_if (is_empty e.reason) (invalid_entry adjustment_without_reason)
validate_ticket _ e = err (invalid_entry operation_mismatch)

-- The outer `switch entry.AssetType`.
unfoldable pub validate_operation : AssetType → Entry → Result LedgerError (Unit {0})
unfolding validate_contribution validate_ticket
validate_operation contribution e = validate_contribution e.operation e
validate_operation ticket e = validate_ticket e.operation e
validate_operation (AssetType.other _) e = err (invalid_entry unknown_asset)

-- `ValidateEntry`
unfoldable pub validate_entry : Entry → Result LedgerError (Unit {0})
unfolding validate_operation
validate_entry e = do
  fail_if
      (e.user_id == 0
        || e.period_id == 0
        || is_unset_asset e.asset_type
        || is_unset_operation e.operation)
      (invalid_entry missing_identity)
  fail_if (eqb_ℤ e.amount (pos 0)) (invalid_entry zero_amount)
  fail_if
      (is_empty e.source_type
        || is_empty e.source_ref
        || is_empty e.idempotency_key
        || is_empty e.payload_hash)
      (invalid_entry missing_source)
  validate_operation e.asset_type e

-- The test that opens `Apply`.
abbrev pub is_account_of : Account → Entry → Bool
is_account_of a e =
    a.user_id == e.user_id && a.period_id == e.period_id && asset_eq a.asset_type e.asset_type

-- `Apply`
unfoldable pub apply : Account → Entry → Result LedgerError Account
apply a e = do
  fail_if (not (is_account_of a e)) (invalid_entry account_mismatch)
  validate_entry e
  fail_if (ltb_ℤ (pos 0) e.amount && ltb_ℤ (sub_int64 max_int64 e.amount) a.balance)
      balance_overflow
  fail_if (ltb_ℤ e.amount (pos 0) && ltb_ℤ a.balance (sub_int64 min_int64 e.amount))
      balance_overflow
  let balance = add_int64 a.balance e.amount
  fail_if (a.version == max_uint64) balance_overflow
  ok (record a { balance = balance; version = add_uint64 a.version 1 })

-- An error of entry `index`, wrapped.
abbrev pub at_index {ℓ} : {A : Type ℓ} → ℕ → Result LedgerError A → Result LedgerError A
at_index index (ok a) = ok a
at_index index (err e) = err (at_entry index e)

-- One round of the loop in `Rebuild`.
unfoldable pub replay : ℕ → Account → Entry → Result LedgerError Account
replay index a e = do
  next ← at_index index (apply a e)
  fail_if (not (eqb_ℤ next.balance e.balance_after))
      (at_entry index (invalid_entry balance_mismatch))
  ok next

unfoldable pub rebuild_from : ℕ → Account → List Entry → Result LedgerError Account
rebuild_from index a [] = ok a
rebuild_from index a (e ∷ es) = do next ← replay index a e; rebuild_from (suc index) next es

-- `Rebuild`
unfoldable pub rebuild : Account → List Entry → Result LedgerError Account
unfolding rebuild_from
rebuild initial entries = rebuild_from 0 initial entries
