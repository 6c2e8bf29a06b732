-- ===== src/Ledger/Validate.antt =====
-- `ValidateEntry` against a table of what each asset's operations allow.
use meta_pulse.Prelude.{◌||◌, ◌==◌, ◌≡◌, ◌≢◌, ◌↔◌, none, false, refl, arith}
use meta_pulse.Prelude.Int.{ℤ, pos, eqb_ℤ, ◌<ℤ◌, eq_of_parts, eqb_ℤ→eq}
use meta_pulse.Prelude.Text.{text_eq_iff, is_empty}
use meta_pulse.Prelude.Result.{ok, fail_if_iff}
use meta_pulse.Ledger.Defs.{
  AssetType, Operation, Entry, contribution, ticket, contribution_earn, contribution_reverse,
  contribution_adjustment, ticket_mint, ticket_bonus, ticket_spend, ticket_expire, ticket_reverse,
  ticket_adjustment, validate_entry, validate_operation, validate_contribution, validate_ticket,
  is_unset_asset, is_unset_operation,
}

-- What an operation of an asset asks of the amount, the reversed entry and the reason.
abbrev pub Allows : AssetType → Operation → Entry → Type 0
Allows contribution contribution_earn e = pos 0 <ℤ e.amount
Allows contribution contribution_reverse e = (e.amount <ℤ pos 0) × (e.reversal_of_entry_id ≢ none)
Allows contribution contribution_adjustment e = e.reason ≢ ""
Allows ticket ticket_mint e = pos 0 <ℤ e.amount
Allows ticket ticket_bonus e = pos 0 <ℤ e.amount
Allows ticket ticket_spend e = e.amount <ℤ pos 0
Allows ticket ticket_expire e = e.amount <ℤ pos 0
Allows ticket ticket_reverse e = (e.amount <ℤ pos 0) × (e.reversal_of_entry_id ≢ none)
Allows ticket ticket_adjustment e = e.reason ≢ ""
Allows _ _ e = ⊥

pub record IsWellFormed (e : Entry) : Type 0 where
  pub user : e.user_id ≢ 0
  pub period : e.period_id ≢ 0
  pub moves : e.amount ≢ pos 0
  pub typed : e.source_type ≢ ""
  pub sourced : e.source_ref ≢ ""
  pub keyed : e.idempotency_key ≢ ""
  pub hashed : e.payload_hash ≢ ""
  pub allowed : Allows e.asset_type e.operation e

contribution_lem :
    (o : Operation) (e : Entry)
    → e.amount ≢ pos 0
    → (validate_contribution o e ≡ ok tt) ↔ Allows contribution o e
unfolding validate_contribution
contribution_lem contribution_earn e nz = ground (arith, eq_of_parts e.amount (pos 0))
contribution_lem contribution_reverse e nz = ground (arith, eq_of_parts e.amount (pos 0))
contribution_lem contribution_adjustment e nz = ground (arith, text_eq_iff e.reason "")
contribution_lem _ e nz = ground arith

ticket_lem :
    (o : Operation) (e : Entry)
    → e.amount ≢ pos 0
    → (validate_ticket o e ≡ ok tt) ↔ Allows ticket o e
unfolding validate_ticket
ticket_lem ticket_mint e nz = ground (arith, eq_of_parts e.amount (pos 0))
ticket_lem ticket_bonus e nz = ground (arith, eq_of_parts e.amount (pos 0))
ticket_lem ticket_spend e nz = ground (arith, eq_of_parts e.amount (pos 0))
ticket_lem ticket_expire e nz = ground (arith, eq_of_parts e.amount (pos 0))
ticket_lem ticket_reverse e nz = ground (arith, eq_of_parts e.amount (pos 0))
ticket_lem ticket_adjustment e nz = ground (arith, text_eq_iff e.reason "")
ticket_lem _ e nz = ground arith

operation_lem :
    (a : AssetType) (e : Entry)
    → e.amount ≢ pos 0
    → (validate_operation a e ≡ ok tt) ↔ Allows a e.operation e
unfolding validate_operation
operation_lem contribution e nz = contribution_lem e.operation e nz
operation_lem ticket e nz = ticket_lem e.operation e nz
operation_lem (AssetType.other s) e nz = ground arith

-- The named operations are not the empty string.
set_operation :
    (a : AssetType) (o : Operation) (e : Entry)
    → Allows a o e
    → (is_unset_asset a ≡ false) × (is_unset_operation o ≡ false)
set_operation contribution contribution_earn e h = (refl, refl)
set_operation contribution contribution_reverse e h = (refl, refl)
set_operation contribution contribution_adjustment e h = (refl, refl)
set_operation ticket ticket_mint e h = (refl, refl)
set_operation ticket ticket_bonus e h = (refl, refl)
set_operation ticket ticket_spend e h = (refl, refl)
set_operation ticket ticket_expire e h = (refl, refl)
set_operation ticket ticket_reverse e h = (refl, refl)
set_operation ticket ticket_adjustment e h = (refl, refl)
set_operation _ _ e h = elim h [ ]

identified_iff :
    (e : Entry)
    → ((e.user_id == 0
          || e.period_id == 0
          || is_unset_asset e.asset_type
          || is_unset_operation e.operation)
        ≡ false)
      ↔ ((e.user_id ≢ 0)
          × (e.period_id ≢ 0)
          × (is_unset_asset e.asset_type ≡ false)
          × (is_unset_operation e.operation ≡ false))
identified_iff e = ground arith

moving_iff : (a : ℤ) → (eqb_ℤ a (pos 0) ≡ false) ↔ (a ≢ pos 0)
moving_iff a = ground (arith, eqb_ℤ→eq a (pos 0))

sourced_iff :
    (e : Entry)
    → ((is_empty e.source_type
          || is_empty e.source_ref
          || is_empty e.idempotency_key
          || is_empty e.payload_hash)
        ≡ false)
      ↔ ((e.source_type ≢ "")
          × (e.source_ref ≢ "")
          × (e.idempotency_key ≢ "")
          × (e.payload_hash ≢ ""))
sourced_iff e = ground (
  arith,
  text_eq_iff e.source_type "",
  text_eq_iff e.source_ref "",
  text_eq_iff e.idempotency_key "",
  text_eq_iff e.payload_hash "",
)

-- `ValidateEntry` accepts exactly the well formed entries.
pub validate_entry_iff : (e : Entry) → (validate_entry e ≡ ok tt) ↔ IsWellFormed e
unfolding validate_entry
validate_entry_iff e = (
  (λ h.
      let (g₁, h₁) = (fail_if_iff _ _ _).0 h in
      let (g₂, h₂) = (fail_if_iff _ _ _).0 h₁ in
      let (g₃, h₃) = (fail_if_iff _ _ _).0 h₂ in
      let (user, period, _, _) = (identified_iff e).0 g₁ in
      let moves = (moving_iff e.amount).0 g₂ in
      let (typed, sourced, keyed, hashed) = (sourced_iff e).0 g₃ in
      record {
        user = user;
        period = period;
        moves = moves;
        typed = typed;
        sourced = sourced;
        keyed = keyed;
        hashed = hashed;
        allowed = (operation_lem e.asset_type e moves).0 h₃;
      }),
  (λ w.
      let (asset, operation) = set_operation e.asset_type e.operation e w.allowed in
      (fail_if_iff _ _ _).1 (
        (identified_iff e).1 (w.user, w.period, asset, operation),
        (fail_if_iff _ _ _).1 (
          (moving_iff e.amount).1 w.moves,
          (fail_if_iff _ _ _).1 (
            (sourced_iff e).1 (w.typed, w.sourced, w.keyed, w.hashed),
            (operation_lem e.asset_type e w.moves).1 w.allowed,
          ),
        ),
      )),
)
