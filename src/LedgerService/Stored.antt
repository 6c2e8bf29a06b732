-- ===== src/LedgerService/Stored.antt =====
-- The row that the ledger stores for a requested entry.
use meta_pulse.Prelude.{ℕ, ◌≡◌, refl}
use meta_pulse.Ledger.{
  AssetType, Operation, contribution, ticket, contribution_earn, ticket_mint, Entry, Account,
  validate_contribution, validate_ticket, validate_operation, validate_entry, apply,
}

-- The entry with its id, its time of creation and the balance that `Apply` computed.
abbrev pub stored : Entry → ℕ → ℕ → Account → Entry
stored e id created_at next = record e {
  id = id;
  balance_after = next.balance;
  created_at = created_at;
}

module _ (e : Entry) (id created_at : ℕ) (next : Account) where
  contribution-stored :
      (o : Operation)
      → validate_contribution o (stored e id created_at next) ≡ validate_contribution o e
  unfolding validate_contribution
  contribution-stored contribution_earn = refl
  contribution-stored _ = refl

  ticket-stored :
      (o : Operation) → validate_ticket o (stored e id created_at next) ≡ validate_ticket o e
  unfolding validate_ticket
  ticket-stored ticket_mint = refl
  ticket-stored _ = refl

  operation-stored :
      (t : AssetType) → validate_operation t (stored e id created_at next) ≡ validate_operation t e
  unfolding validate_operation
  operation-stored contribution = contribution-stored e.operation
  operation-stored ticket = ticket-stored e.operation
  operation-stored (AssetType.other _) = refl

  validate-stored : validate_entry (stored e id created_at next) ≡ validate_entry e
  unfolding validate_entry
  validate-stored = rw (operation-stored e.asset_type)

-- `Apply` looks at nothing that the ledger fills in.
pub apply-stored :
    (a next : Account) (e : Entry) (id created_at : ℕ)
    → apply a (stored e id created_at next) ≡ apply a e
unfolding apply
apply-stored a next e id created_at = rw (validate-stored e id created_at next)
