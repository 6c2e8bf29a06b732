-- ===== src/Ledger/Apply.antt =====
-- `Apply`: the account moves by exactly the amount, or the entry is refused.
use meta_pulse.Prelude.{◌+◌, ◌≡◌, ◌↔◌, Bool, ◌&&◌, ◌||◌, ◌<◌, ◌⊎◌, refl, true, false, arith}
use meta_pulse.Prelude.Int.{ℤ, pos, ◌+ℤ◌, +ℤ_parts, -ℤ_parts, ltb_ℤ}
use meta_pulse.Prelude.Word.{
  IsInt64, IsUint64, max_int64, min_int64, max_uint64, sub_int64, add_int64_exact,
}
use meta_pulse.Prelude.Text.{text_eq_iff}
use meta_pulse.Prelude.Result.{ok, err}
use meta_pulse.Money.Bounds.{max_room, min_room}
use meta_pulse.Ledger.Defs.{
  AssetType, contribution, ticket, Entry, Account, balance_overflow, asset_eq, is_account_of, apply,
}
use meta_pulse.Ledger.Validate.{IsWellFormed, validate_entry_iff}

pub asset_eq_iff : (a b : AssetType) → (asset_eq a b ≡ true) ↔ (a ≡ b)
asset_eq_iff contribution b = ground arith
asset_eq_iff ticket b = ground arith
asset_eq_iff (AssetType.other s) contribution = ground arith
asset_eq_iff (AssetType.other s) ticket = ground arith
asset_eq_iff (AssetType.other s) (AssetType.other t) = ground (arith, text_eq_iff s t)

-- The account that an entry belongs to.
pub record Owns (a : Account) (e : Entry) : Type 0 where
  pub user : a.user_id ≡ e.user_id
  pub period : a.period_id ≡ e.period_id
  pub asset : a.asset_type ≡ e.asset_type

is_account_of_iff : (a : Account) (e : Entry) → (is_account_of a e ≡ true) ↔ Owns a e
is_account_of_iff a e = ground (arith, asset_eq_iff a.asset_type e.asset_type)

-- The values that the database columns hold.
pub record InRange (a : Account) : Type 0 where
  pub balance : IsInt64 a.balance
  pub version : IsUint64 a.version

-- `b` is `a` after the entry: the balance has moved by exactly the amount and is still an int64,
-- the version has grown by one, and nothing else has changed.
pub record Applied (a : Account) (e : Entry) (b : Account) : Type 0 where
  pub id : b.id ≡ a.id
  pub user : b.user_id ≡ a.user_id
  pub period : b.period_id ≡ a.period_id
  pub asset : b.asset_type ≡ a.asset_type
  pub balance : b.balance ≡ a.balance +ℤ e.amount
  pub fits : IsInt64 b.balance
  pub version : b.version ≡ a.version + 1
  pub bounded : IsUint64 b.version

-- The two overflow tests of `Apply`, together.
abbrev overflows : ℤ → ℤ → Bool
overflows balance amount =
    (ltb_ℤ (pos 0) amount && ltb_ℤ (sub_int64 max_int64 amount) balance)
    || (ltb_ℤ amount (pos 0) && ltb_ℤ balance (sub_int64 min_int64 amount))

overflows_exact : (b x : ℤ) → IsInt64 b → IsInt64 x → overflows b x ≡ false → IsInt64 (b +ℤ x)
overflows_exact b x hb hx h =
    ground (
      arith,
      max_room x hx,
      min_room x hx,
      -ℤ_parts max_int64 x,
      -ℤ_parts min_int64 x,
      +ℤ_parts b x,
    )

overflows_only : (b x : ℤ) → IsInt64 b → IsInt64 x → overflows b x ≡ true → ¬ IsInt64 (b +ℤ x)
overflows_only b x hb hx h =
    ground (
      arith,
      max_room x hx,
      min_room x hx,
      -ℤ_parts max_int64 x,
      -ℤ_parts min_int64 x,
      +ℤ_parts b x,
    )

-- A result of `Apply` is the account after the entry, which was well formed and the account's own.
pub apply-Applied :
    (a : Account) (e : Entry) {b : Account}
    → InRange a
    → IsInt64 e.amount
    → apply a e ≡ ok b
    → Owns a e × IsWellFormed e × Applied a e b
unfolding apply
apply-Applied a e r h p = ground (
  arith,
  is_account_of_iff a e,
  validate_entry_iff e,
  overflows_exact a.balance e.amount r.balance h,
  add_int64_exact a.balance e.amount,
)

-- `Apply` accepts each well formed entry of the account whose sum and version fit.
pub apply_total :
    (a : Account) (e : Entry)
    → InRange a
    → IsInt64 e.amount
    → Owns a e
    → IsWellFormed e
    → IsInt64 (a.balance +ℤ e.amount)
    → a.version < max_uint64
    → (b : Account) × (apply a e ≡ ok b) × Applied a e b
unfolding apply
apply_total a e r h o w fits v = (
  record a { balance = a.balance +ℤ e.amount; version = a.version + 1 },
  ground (
    arith,
    (is_account_of_iff a e).1 o,
    (validate_entry_iff e).1 w,
    overflows_only a.balance e.amount r.balance h,
    add_int64_exact a.balance e.amount fits,
  ),
  record {
    id = refl;
    user = refl;
    period = refl;
    asset = refl;
    balance = refl;
    fits = fits;
    version = refl;
    bounded = omega arith;
  },
)

-- An accepted amount that no int64 sum holds is refused with `ErrBalanceOverflow`.
pub apply_overflow :
    (a : Account) (e : Entry)
    → InRange a
    → IsInt64 e.amount
    → Owns a e
    → IsWellFormed e
    → ¬ IsInt64 (a.balance +ℤ e.amount) ⊎ (a.version ≡ max_uint64)
    → apply a e ≡ err balance_overflow
unfolding apply
apply_overflow a e r h o w bad = ground (
  arith,
  (is_account_of_iff a e).1 o,
  (validate_entry_iff e).1 w,
  overflows_exact a.balance e.amount r.balance h,
  bad,
)
