-- ===== src/Economics/Evaluation.antt =====
-- `Evaluate`: the contribution that a rule gives.
use meta_pulse.Prelude.{◌≡◌, ◌⊎◌, inl, inr, true, false, Bool-cases, arith}
use meta_pulse.Prelude.Int.{ℤ, pos, pos_part, ◌≤ℤ◌}
use meta_pulse.Prelude.Word.{IsInt64}
use meta_pulse.Prelude.Result.{ok, err}
use meta_pulse.Money.{overflow, max_bps, validate_bps}
use meta_pulse.Money.Bounds.{IsTruncated, multiply_bps-IsChecked}
use meta_pulse.Economics.{Rule, Decision, evaluate}

-- The decision of a rule with a given contribution.
abbrev pub decides : Rule → ℤ → Decision
decides r c = record {
  rule_id = r.id;
  rule_key = r.key;
  eligible = r.eligible;
  multiplier_bps = r.multiplier_bps;
  config_version = r.config_version;
  contribution = c;
}

-- For a multiplier of at most 1000000 basis points `Evaluate` copies the rule into the decision; the
-- contribution is 0 for an ineligible rule, and otherwise the quota over 10000 basis points,
-- truncated toward zero, with the overflow error exactly when no int64 holds it.
pub evaluate_lem :
    (quota : ℤ) (r : Rule)
    → pos 0 ≤ℤ r.multiplier_bps
    → r.multiplier_bps ≤ℤ max_bps
    → ((r.eligible ≡ false) × (evaluate quota r ≡ ok (decides r (pos 0))))
      ⊎ ((r.eligible ≡ true)
          × ((q : ℤ) × IsTruncated quota (pos_part r.multiplier_bps) q
              × ((IsInt64 q × (evaluate quota r ≡ ok (decides r q)))
                  ⊎ (¬ IsInt64 q × (evaluate quota r ≡ err overflow)))))
unfolding evaluate validate_bps
evaluate_lem quota r lo hi = elim (Bool-cases r.eligible) [
  | inl e ↦
      let (q, t, c) = multiply_bps-IsChecked quota r.multiplier_bps lo hi in
      inr (e, (q, t, ground (arith, c)))
  | inr e ↦ inl (e, ground arith)
]
