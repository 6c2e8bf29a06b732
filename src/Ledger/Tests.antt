-- ===== src/Ledger/Tests.antt =====
-- A history of three entries, and the ledger theorems at it.
use meta_pulse.Prelude.{◌≡◌, ◌≢◌, ◌↔◌, refl, none, [], ◌∷◌, arith, inl, String}
use meta_pulse.Prelude.Int.{ℤ, pos, negsuc, ◌+ℤ◌}
use meta_pulse.Prelude.Word.{add_int64, sub_int64, max_int64}
use meta_pulse.Prelude.Result.{ok, err}
use meta_pulse.Ledger.Defs.{
  Entry, Account, Operation, ticket, ticket_mint, ticket_spend, balance_overflow, invalid_entry,
  balance_mismatch, at_entry, validate_entry, apply, replay, rebuild,
}
use meta_pulse.Ledger.Validate.{IsWellFormed, validate_entry_iff}
use meta_pulse.Ledger.Apply.{Owns, Applied, apply-Applied, apply_total, apply_overflow}
use meta_pulse.Ledger.Rebuild.{
  Replayed, rebuild-Replayed, rebuild_detects_gap, rebuild_detects_tampering,
}

abbrev entry : Operation → ℤ → ℤ → String → Entry
entry operation amount balance_after key = record {
  id = 0;
  user_id = 7;
  period_id = 2;
  asset_type = ticket;
  operation = operation;
  amount = amount;
  balance_after = balance_after;
  source_type = "action";
  source_ref = key;
  idempotency_key = key;
  payload_hash = "hash";
  reversal_of_entry_id = none;
  reason = "";
  metadata_json = [];
  created_at = 100;
}

abbrev mint : Entry
mint = entry ticket_mint (pos 5) (pos 5) "a"

abbrev spend : Entry
spend = entry ticket_spend (negsuc 1) (pos 3) "b"

abbrev again : Entry
again = entry ticket_spend (negsuc 0) (pos 2) "c"

abbrev fresh : Account
fresh = record {
  id = 1;
  user_id = 7;
  period_id = 2;
  asset_type = ticket;
  balance = pos 0;
  version = 0;
}

abbrev full : Account
full = record fresh { balance = max_int64 }

abbrev final : Account
final = record fresh { balance = pos 2; version = 3 }

rebuild_history : rebuild fresh (mint ∷ spend ∷ again ∷ []) ≡ ok final
unfolding rebuild replay apply validate_entry add_int64 sub_int64
rebuild_history = refl

rebuild_gap : rebuild fresh (mint ∷ again ∷ []) ≡ err (at_entry 1 (invalid_entry balance_mismatch))
unfolding rebuild replay apply validate_entry add_int64 sub_int64
rebuild_gap = refl

mint-IsWellFormed : IsWellFormed mint
mint-IsWellFormed = (validate_entry_iff mint).0 (unfold validate_entry in refl)

apply-Applied_example :
    Owns fresh mint
    × IsWellFormed mint
    × Applied fresh mint (record fresh { balance = pos 5; version = 1 })
unfolding apply validate_entry add_int64 sub_int64
apply-Applied_example = apply-Applied fresh mint (omega arith) (omega arith) refl

apply_total_example : (b : Account) × (apply fresh mint ≡ ok b) × Applied fresh mint b
unfolding ◌+ℤ◌
apply_total_example =
    apply_total fresh mint (omega arith) (omega arith)
      (record { user = refl; period = refl; asset = refl }) mint-IsWellFormed (omega arith)
      (omega arith)

apply_overflow_example : apply full mint ≡ err balance_overflow
unfolding ◌+ℤ◌
apply_overflow_example =
    apply_overflow full mint (omega arith) (omega arith)
      (record { user = refl; period = refl; asset = refl }) mint-IsWellFormed (inl (omega arith))

rebuild-Replayed_example : Replayed fresh (mint ∷ spend ∷ again ∷ []) final
rebuild-Replayed_example =
    rebuild-Replayed fresh (mint ∷ spend ∷ again ∷ []) (omega arith) (omega arith) rebuild_history

rebuild_detects_gap_example : rebuild fresh (mint ∷ again ∷ []) ≢ ok final
rebuild_detects_gap_example =
    rebuild_detects_gap fresh (mint ∷ []) spend again [] (omega arith) (omega arith) rebuild_history
      final

abbrev heavier : Entry
heavier = entry ticket_spend (negsuc 2) (pos 2) "b"

spend_history :
    rebuild fresh (mint ∷ spend ∷ []) ≡ ok (record fresh { balance = pos 3; version = 2 })
unfolding rebuild replay apply validate_entry add_int64 sub_int64
spend_history = refl

heavier_history :
    rebuild fresh (mint ∷ heavier ∷ []) ≡ ok (record fresh { balance = pos 2; version = 2 })
unfolding rebuild replay apply validate_entry add_int64 sub_int64
heavier_history = refl

rebuild_detects_tampering_example :
    (spend.amount ≡ heavier.amount) ↔ (spend.balance_after ≡ heavier.balance_after)
rebuild_detects_tampering_example =
    rebuild_detects_tampering fresh (mint ∷ []) spend heavier [] [] (omega arith) (omega arith)
      (omega arith) spend_history heavier_history

validate_entry_iff_example : (validate_entry mint ≡ ok tt) ↔ IsWellFormed mint
validate_entry_iff_example = validate_entry_iff mint
