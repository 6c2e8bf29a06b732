-- ===== src/Budget.antt =====
-- The reward budgets (services/pulse/internal/ports/reward.go) and the three moves of money in
-- them: a reservation (service/action.go), a settlement and its rollback (service/settlement.go).
pub mod Sound
pub mod Moves
use meta_pulse.Prelude.{ℕ, ◌==◌, Bool, true, false, ◌&&◌, ◌||◌, not, String, if◌then◌else◌}
use meta_pulse.Prelude.Int.{ℤ, pos, ltb_ℤ, leb_ℤ, eqb_ℤ}
use meta_pulse.Prelude.Word.{max_int64, max_uint64, add_int64, sub_int64, add_uint64}
use meta_pulse.Prelude.Text.{text_eq}
use meta_pulse.Prelude.Result.{Result, ok, err}

-- `RewardBudget`
pub record Budget : Type 0 where
  pub unlimited : Bool
  pub id : ℕ
  pub period_id : ℕ
  pub budget_type : String
  pub hard_cap : ℤ
  pub reserved : ℤ
  pub settled : ℤ
  pub released : ℤ
  pub version : ℕ

pub data BudgetError : Type 0 where
  budget_exceeded reservation_inconsistent budget_overflow rollback_inconsistent : BudgetError

abbrev pub limit_of : Budget → ℤ
limit_of b = if b.unlimited then max_int64 else b.hard_cap

-- `CanReserve`
unfoldable pub can_reserve : Budget → ℤ → Bool
can_reserve b amount =
    if b.unlimited && (not (text_eq b.budget_type "loyalty") || not (eqb_ℤ b.hard_cap (pos 0)))
    then false
    else leb_ℤ (pos 0) (limit_of b)
      && leb_ℤ (pos 0) amount
      && leb_ℤ (pos 0) b.reserved
      && leb_ℤ (pos 0) b.settled
      && leb_ℤ (pos 0) b.released
      && leb_ℤ b.settled (limit_of b)
      && leb_ℤ b.reserved (sub_int64 (limit_of b) b.settled)
      && leb_ℤ amount (sub_int64 (sub_int64 (limit_of b) b.settled) b.reserved)

-- `reserveBudget`
unfoldable pub reserve_budget : Budget → ℤ → Result BudgetError Budget
reserve_budget b amount =
    if b.id == 0 || b.version == max_uint64 || not (can_reserve b amount)
    then err budget_exceeded
    else ok (record b { reserved = add_int64 b.reserved amount; version = add_uint64 b.version 1 })

-- The budget's part of `complete`.
unfoldable pub settle_budget : Budget → ℤ → Result BudgetError Budget
settle_budget b amount =
    if leb_ℤ amount (pos 0) || ltb_ℤ b.reserved amount || b.version == max_uint64
    then err reservation_inconsistent
    else if ltb_ℤ (sub_int64 max_int64 amount) b.settled
    then err budget_overflow
    else ok (record b {
      reserved = sub_int64 b.reserved amount;
      settled = add_int64 b.settled amount;
      version = add_uint64 b.version 1;
    })

-- The budget's part of `Rollback`.
unfoldable pub release_budget : Budget → ℤ → Result BudgetError Budget
release_budget b amount =
    if ltb_ℤ b.settled amount || b.version == max_uint64
    then err rollback_inconsistent
    else if ltb_ℤ (sub_int64 max_int64 amount) b.released
    then err budget_overflow
    else ok (record b {
      settled = sub_int64 b.settled amount;
      released = add_int64 b.released amount;
      version = add_uint64 b.version 1;
    })
