-- ===== src/RewardStore/Validate.antt =====
-- What the repositories refuse before they write.
use meta_pulse.Prelude.{
  ℕ, ◌==◌, leb, Bool, true, false, ◌&&◌, ◌||◌, not, Option, none, some, String, List, length,
  if◌then◌else◌,
}
use meta_pulse.Prelude.Int.{pos, leb_ℤ}
use meta_pulse.Prelude.Text.{text_eq, is_empty, is_blank, is_valid_text, is_digest}
use meta_pulse.Budget.{Budget, can_reserve}
use meta_pulse.RewardStore.Records.{
  Grant, Outbox, Codec, end_of_input, another_value, broken, of_time,
}

abbrev pub is_unset : Option ℕ → Bool
is_unset none = true
is_unset (some _) = false

-- `validateRewardBudgetSave`
unfoldable pub is_budget_save : Budget → Bool
is_budget_save b = not (
    b.id == 0
    || b.period_id == 0
    || b.version == 0
    || not (is_valid_text 64 b.budget_type)
    || not (can_reserve b (pos 0)))

-- The bindings of trigger, reward and budget in `validateRewardGrantCreate`.
unfoldable pub is_bound : Grant → Bool
is_bound g =
    if text_eq g.trigger_type "pulse"
    then not (
        g.reward_definition_id == 0
        || (text_eq g.reward_type "community_exp" && not (text_eq g.budget_type "community_exp"))
        || (not (text_eq g.reward_type "community_exp") && not (text_eq g.budget_type "loyalty")))
    else if text_eq g.trigger_type "period_reward"
    then not (g.reward_definition_id == 0 || not (text_eq g.budget_type "period_reward"))
    else if text_eq g.trigger_type "content"
    then not (not (g.reward_definition_id == 0) || not (text_eq g.budget_type "content_reward"))
    else false

-- `validateRewardGrantCreate`
unfoldable pub is_grant_create : Grant → Bool
is_grant_create g =
    g.id == 0
    && not (g.period_id == 0)
    && not (g.user_id == 0)
    && not (leb_ℤ g.amount (pos 0))
    && not g.transferable_quota
    && text_eq g.status "pending"
    && text_eq g.grant_id g.source_ref
    && is_unset g.settled_at
    && is_unset g.reversed_at
    && not (g.created_at == 0)
    && is_valid_text 64 g.grant_id
    && is_valid_text 191 g.action_id
    && is_valid_text 32 g.trigger_type
    && is_valid_text 64 g.reward_type
    && is_valid_text 64 g.config_version
    && is_valid_text 191 g.source_ref
    && is_valid_text 255 g.reason
    && is_valid_text 64 g.budget_type
    && is_digest g.random_value
    && is_bound g

-- `canonicalSettlementPayloadHash`
unfoldable pub canonical_payload_hash : Codec → List ℕ → Option String
canonical_payload_hash k payload = elim (k.reencode payload) [
  | none ↦ none
  | some canonical ↦ elim (k.trailing payload) [
    | end_of_input ↦ some (k.sha256_hex canonical)
    | another_value ↦ none
    | broken ↦ none
  ]
]

abbrev is_hash : String → Option String → Bool
is_hash h none = false
is_hash h (some canonical) = text_eq h canonical

-- `validateSettlementOutboxCreate`
unfoldable pub is_outbox_create : Codec → Outbox → Bool
is_outbox_create k o =
    o.id == 0
    && not (o.reward_grant_id == 0)
    && text_eq o.operation "grant"
    && (text_eq o.status "pending"
        || text_eq o.status "shadow"
        || text_eq o.status "community_pending")
    && o.attempts == 0
    && not (o.next_attempt_at == 0)
    && not (o.created_at == 0)
    && is_unset o.leased_until
    && is_blank o.last_error
    && is_unset o.completed_at
    && not (length o.payload_json == 0)
    && leb (length o.payload_json) 65536
    && is_hash o.payload_hash (canonical_payload_hash k o.payload_json)

-- `validateSettlementOutboxUpdate`
unfoldable pub is_outbox_update : Outbox → Bool
is_outbox_update o =
    if o.id == 0
      || o.reward_grant_id == 0
      || o.attempts == 0
      || o.next_attempt_at == 0
      || not (is_unset o.leased_until)
    then false
    else if text_eq o.status "retry" || text_eq o.status "dead" || text_eq o.status "conflict"
    then not (is_blank o.last_error || not (is_unset o.completed_at))
    else if text_eq o.status "completed"
    then not (of_time o.completed_at == 0 || not (is_empty o.last_error))
    else false
