-- ===== src/Action.antt =====
-- The reward part of `ActionService.Execute` (services/pulse/internal/service/action.go): the locks
-- on the budgets, the reservation, and the rows written for the grant.
pub mod Keeps
pub mod Awarded
pub mod Cover
pub mod Stored
pub mod Loaded
use meta_pulse.Prelude.{
  ℕ, suc, ◌==◌, leb, ltb, Bool, true, false, ◌&&◌, ◌||◌, not, Option, none, some, String, List, [],
  ◌∷◌, if◌then◌else◌,
}
use meta_pulse.Prelude.Int.{ℤ, pos, ltb_ℤ, leb_ℤ, eqb_ℤ}
use meta_pulse.Prelude.Text.{text_eq}
use meta_pulse.Prelude.Result.{Result, ok, err, fail_if}
use meta_pulse.Prelude.Tx.{◌>>=◌, ◌>>◌, done, refuse, refuse_if, after}
use meta_pulse.Budget.{Budget, budget_exceeded, can_reserve, reserve_budget}
use meta_pulse.Reward.{Definition, valid}
use meta_pulse.RewardStore.{
  Grant, Outbox, Db, Tx, Call, StoreError, not_found, budget, Codec, Payload, get_budget_for_update,
  create_grant, create_outbox, save_budget,
}
use meta_pulse.Settlement.Service.{budget_step, canonical_json_hash}

-- `rewardBudget`
abbrev pub reward_budget : String → String
reward_budget reward_type =
    if text_eq reward_type "community_exp" then "community_exp" else "loyalty"

-- What is wrong with the enabled definition `d`, for `validateRewardDefinitions`.
pub data DefinitionError : Type 0 where
  malformed version_mismatch transferable : ℕ → DefinitionError

-- `validateRewardDefinitions`
unfoldable pub validate_reward_definitions :
    List Definition → String → Result DefinitionError (Unit {0})
validate_reward_definitions [] version = ok tt
validate_reward_definitions (d ∷ ds) version =
    let rest = validate_reward_definitions ds version in
    if not d.enabled
    then rest
    else if not (valid d)
        || leb_ℤ d.amount (pos 0)
        || (text_eq d.reward_type "community_exp" && ltb_ℤ (pos 1000000) d.amount)
    then err (malformed d.id)
    else if not (text_eq d.config_version version)
    then err (version_mismatch d.id)
    else if d.transferable_quota
    then err (transferable d.id)
    else rest

-- `experienceOnly`
unfoldable pub experience_only : List Definition → List Definition
experience_only [] = []
experience_only (d ∷ ds) =
    let rest = experience_only ds in
    if text_eq d.reward_type "community_exp" then d ∷ rest else rest

-- The largest prize that draws on a budget: the inner loop over the definitions.
unfoldable pub max_prize_from : ℤ → String → List Definition → ℤ
max_prize_from top kind [] = top
max_prize_from top kind (d ∷ ds) =
    if d.enabled && text_eq (reward_budget d.reward_type) kind && ltb_ℤ top d.amount
    then max_prize_from d.amount kind ds
    else max_prize_from top kind ds

abbrev pub max_prize : String → List Definition → ℤ
max_prize = max_prize_from (pos 0)

-- `ErrNotFound` of the budget is a refusal: the prize cannot be covered.
abbrev pub as_exceeded : Result StoreError Budget × Db → Result StoreError Budget × Db
as_exceeded (err not_found, db) = (err (budget budget_exceeded), db)
as_exceeded r = r

-- What `Execute` has decided when it comes to the reward.
pub record Award : Type 0 where
  pub grant_id : String
  pub period_id : ℕ
  pub user_id : ℕ
  pub action_id : String
  pub trigger_type : String
  pub config_version : String
  pub random_value : String
  pub definition : Definition
  pub at : ℕ
  pub is_shadow : Bool

-- `ports.RewardGrant` of the award.
abbrev pub grant_of : Award → Grant
grant_of a = record {
  id = 0;
  grant_id = a.grant_id;
  period_id = a.period_id;
  user_id = a.user_id;
  action_id = a.action_id;
  trigger_type = a.trigger_type;
  reward_definition_id = a.definition.id;
  reward_type = a.definition.reward_type;
  amount = a.definition.amount;
  transferable_quota = false;
  budget_type = reward_budget a.definition.reward_type;
  random_value = a.random_value;
  config_version = a.config_version;
  status = "pending";
  source_ref = a.grant_id;
  reason = "pulse action";
  settled_at = none;
  reversed_at = none;
  created_at = a.at;
}

abbrev pub payload_of : Grant → Payload
payload_of g = record {
  grant_id = g.grant_id;
  user_id = g.user_id;
  amount = g.amount;
  transferable_quota = false;
  source_ref = g.source_ref;
  reward_type = g.reward_type;
}

abbrev pub outbox_status : Award → String
outbox_status a =
    if a.is_shadow
    then "shadow"
    else if text_eq a.definition.reward_type "community_exp"
    then "community_pending"
    else "pending"

-- `ports.SettlementOutbox` of the grant.
abbrev pub outbox_of : Codec → Award → Grant → Outbox
outbox_of k a g = record {
  id = 0;
  reward_grant_id = g.id;
  operation = "grant";
  payload_hash = canonical_json_hash k (k.marshal_sorted (payload_of g));
  payload_json = k.marshal_sorted (payload_of g);
  status = outbox_status a;
  attempts = 0;
  next_attempt_at = a.at;
  leased_until = none;
  last_error = "";
  completed_at = none;
  created_at = a.at;
}

module _ (fails : Call → Bool) where
  -- One round of the loop over the budget kinds; `none` for a kind without a prize.
  unfoldable pub lock_pool : ℕ → String → List Definition → Tx (Option Budget)
  lock_pool period kind definitions =
      if eqb_ℤ (max_prize kind definitions) (pos 0) then done none else do
        b ← λ db. as_exceeded (get_budget_for_update fails period kind db)
        refuse_if (not (can_reserve b (max_prize kind definitions))) (budget budget_exceeded)
        done (some b)

  -- `budgets[kind]`: the zero value of a missing key has no identity and cannot be reserved from.
  abbrev pub reserved_from : Option Budget → ℤ → Tx Budget
  reserved_from none amount = refuse (budget budget_exceeded)
  reserved_from (some b) amount = budget_step (reserve_budget b amount)

  -- The locks on both budgets, and the reservation in that of the drawn reward.
  unfoldable pub reserve_reward : Award → List Definition → Tx Budget
  reserve_reward a definitions = do
    loyalty ← lock_pool a.period_id "loyalty" definitions
    experience ← lock_pool a.period_id "community_exp" definitions
    reserved_from
        (if text_eq (reward_budget a.definition.reward_type) "community_exp"
          then experience
          else loyalty)
        a.definition.amount

  -- The grant, its outbox row and the budget.
  unfoldable pub store_reward : Codec → Award → Budget → Tx Grant
  store_reward k a b = do
    g ← create_grant fails (grant_of a)
    _ ← create_outbox fails k (outbox_of k a g)
    save_budget fails b
    done g

  -- The reward part of the transaction, whole.
  unfoldable pub award_reward : Codec → Award → List Definition → Tx Grant
  award_reward k a definitions = do b ← reserve_reward a definitions; store_reward k a b
