-- ===== src/Economics.antt =====
-- Versioned contribution rules (services/pulse/internal/domain/economics/economics.go): validation,
-- matching, the choice of one rule, and its evaluation. Go's `path.Match` is a parameter: it gives
-- `none` for a malformed pattern.
pub mod Choice
pub mod Evaluation
pub mod Pipeline
mod Tests
use meta_pulse.Prelude.{
  ℕ, ◌+◌, String, Bool, true, false, not, ◌&&◌, ◌||◌, Option, none, some, List, [], ◌∷◌, ◌==◌, ltb,
  if◌then◌else◌,
}
use meta_pulse.Prelude.Int.{ℤ, pos, ltb_ℤ, eqb_ℤ}
use meta_pulse.Prelude.Text.{text_eq, text_lt, is_empty, is_blank}
use meta_pulse.Prelude.Result.{Result, ok, err, ◌>>=◌, ◌>>◌, fail_if}
use meta_pulse.Prelude.Sort.{sort_stable}
use meta_pulse.Money.{MoneyError, validate_bps, multiply_bps}

pub record Rule : Type 0 where
  pub id : ℕ
  pub key : String
  pub priority : ℤ
  pub model_pattern : String
  pub channel_id : Option ℕ
  pub eligible : Bool
  pub multiplier_bps : ℤ
  pub config_version : String

pub record Decision : Type 0 where
  pub rule_id : ℕ
  pub rule_key : String
  pub eligible : Bool
  pub multiplier_bps : ℤ
  pub config_version : String
  pub contribution : ℤ

pub data RuleError : Type 0 where
  empty_version version_mismatch bad_pattern : RuleError
  bad_multiplier : MoneyError → RuleError

-- The error of `MultiplierBps.Validate`, returned as it is.
abbrev pub check_multiplier : ℤ → Result RuleError (Unit {0})
check_multiplier b = elim (validate_bps b) [ ok _ ↦ ok tt | err e ↦ err (bad_multiplier e) ]

abbrev pub is_bad : Option Bool → Bool
is_bad none = true
is_bad (some _) = false

abbrev pub is_match : Option Bool → Bool
is_match none = false
is_match (some b) = b

-- `r.ChannelID != nil && *r.ChannelID != channelID`, negated.
abbrev pub fits_channel : Option ℕ → ℕ → Bool
fits_channel none channel = true
fits_channel (some c) channel = c == channel

abbrev has_channel : Option ℕ → ℕ
has_channel none = 0
has_channel (some _) = 2

-- The closure `specificity` of `Select`.
unfoldable pub specificity : Rule → ℕ
specificity r = has_channel r.channel_id + (if is_empty r.model_pattern then 0 else 1)

-- The function `less` of the sort in `Select`.
unfoldable pub before : Rule → Rule → Bool
before a b =
    if not (eqb_ℤ a.priority b.priority)
    then ltb_ℤ b.priority a.priority
    else if not (specificity a == specificity b)
    then ltb (specificity b) (specificity a)
    else text_lt a.key b.key

abbrev pub head_rule : List Rule → Option Rule
head_rule [] = none
head_rule (r ∷ _) = some r

module _ (path_match : String → String → Option Bool) where
  -- `ValidateRules`
  unfoldable pub validate_each : String → List Rule → Result RuleError (Unit {0})
  validate_each version [] = ok tt
  validate_each version (r ∷ rs) = do
    fail_if (r.id == 0 || is_blank r.key || not (text_eq r.config_version version)) version_mismatch
    check_multiplier r.multiplier_bps
    fail_if (not (is_empty r.model_pattern) && is_bad (path_match r.model_pattern "")) bad_pattern
    validate_each version rs

  unfoldable pub validate_rules : List Rule → String → Result RuleError (Unit {0})
  unfolding validate_each
  validate_rules rules version = do
    fail_if (is_blank version) empty_version
    validate_each version rules

  -- `Rule.Matches`
  unfoldable pub matches : Rule → String → ℕ → Bool
  matches r model channel =
      fits_channel r.channel_id channel
      && (is_blank r.model_pattern || is_match (path_match r.model_pattern model))

  -- The loop that collects the matching rules.
  unfoldable pub matching : List Rule → String → ℕ → List Rule
  matching [] model channel = []
  matching (r ∷ rs) model channel =
      let rest = matching rs model channel in if matches r model channel then r ∷ rest else rest

  -- `Select`
  unfoldable pub select : List Rule → String → ℕ → Option Rule
  select rules model channel = head_rule (sort_stable before (matching rules model channel))

-- `Evaluate`
unfoldable pub evaluate : ℤ → Rule → Result MoneyError Decision
evaluate quota_delta r = do
  validate_bps r.multiplier_bps
  let decision : Decision = record {
    rule_id = r.id;
    rule_key = r.key;
    eligible = r.eligible;
    multiplier_bps = r.multiplier_bps;
    config_version = r.config_version;
    contribution = pos 0;
  }
  if not r.eligible
      then ok decision
      else (multiply_bps quota_delta r.multiplier_bps >>= λ c.
          ok (record decision { contribution = c }))
