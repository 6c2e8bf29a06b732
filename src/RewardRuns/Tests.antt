-- ===== src/RewardRuns/Tests.antt =====
-- A prize of 30 out of a budget of 100: won, paid out and rolled back.
use meta_pulse.Prelude.{
  ℕ, List, if◌then◌else◌, length, ◌<◌, ◌==◌, here, ◌≡◌, refl, subst, Bool, true, false, String, [],
  ◌∷◌, none, some, inl, inr, Bool-cases, arith,
}
use meta_pulse.Prelude.Int.{pos, ◌+ℤ◌, ◌≤ℤ◌, int_laws}
use meta_pulse.Prelude.Result.{err, ok}
use meta_pulse.Prelude.Table.{select_rows, update_row, find_row}
use meta_pulse.Budget.{can_reserve, reserve_budget, settle_budget, Budget}
use meta_pulse.Budget.Moves.{Kept}
use meta_pulse.Reward.{Definition}
use meta_pulse.RewardStore.{
  not_found, leased, is_budget_save, is_bound, is_grant_create, canonical_payload_hash,
  is_outbox_create, is_outbox_update, take, settle_awards, get_budget_for_update, save_budget,
  find_grant, transition_grant, create_grant, create_outbox, find_by_grant, save_outbox, lease_rows,
  claim_due, mark_award_settled, Grant, Outbox, Db, Call, Codec, Payload, end_of_input, commit,
  is_pool, run_tx,
}
use meta_pulse.RewardAccounts.Balance.{IsBalanced, Tied, sum_of}
use meta_pulse.RewardAccounts.Keeps.{Keeps-refl, Keeps-Same, Keeps}
use meta_pulse.Settlement.Service.{
  is_payable, canonical_json_hash, legacy_payload_hash, decode_strict_json, is_hashed,
  is_payload_of, load_settlement, settle_grant, complete_grant, complete, Config, World, Reason,
}
use meta_pulse.Settlement.Passes.{
  judge_query, judge, counted, enact, process_one, process_all, process_batch, rollback,
}
use meta_pulse.Action.{
  grant_of, outbox_of, payload_of, max_prize_from, lock_pool, reserve_reward, store_reward, Award,
  award_reward,
}
use meta_pulse.Prelude.Word.{add_int64, sub_int64}
use meta_pulse.Prelude.Text.{
  is_empty, is_space, is_blank, ends_in_space, starts_with_space, rune_count, is_valid_text, is_hex,
  is_hex_digit, is_digest,
}
use meta_pulse.Action.Cover.{Covers, award_reward-Covers}
use meta_pulse.Action.Stored.{stored_row, is_for}
use meta_pulse.Action.Loaded.{award_reward-load_settlement}
use meta_pulse.Settlement.Fence.{IsRefused, claim_due_fences}
use meta_pulse.RewardAccounts.Payment.{IsPaidOut, process_one-IsPaidOut}
use meta_pulse.RewardRuns.{Run, run-Keeps, run_within_cap}

abbrev pool : Budget
pool = record {
  unlimited = false;
  id = 1;
  period_id = 7;
  budget_type = "loyalty";
  hard_cap = pos 100;
  reserved = pos 0;
  settled = pos 0;
  released = pos 0;
  version = 1;
}

abbrev start : Db
start = record {
  budgets = pool ∷ [];
  grants = [];
  next_grant = 1;
  outboxes = [];
  next_outbox = 1;
  awards = [];
}

start-IsBalanced : IsBalanced start
unfolding find_row
start-IsBalanced = record {
  grant_ids = tt;
  below = tt;
  amounts = tt;
  budget_ids = (tt, tt);
  pools = λ p t b f. elim (Bool-cases (is_pool p t pool)) [
    | inl e ↦
        let same : some pool ≡ some b = rw e at f in
        subst (λ x. Kept x × Tied p t [] x) (some_eq same)
          (kept, record { reserved = refl; settled = refl; released = refl })
    | inr e ↦ let no : none ≡ some b = rw e at f in cc
  ];
}
  where
    some_eq : {x y : Budget} → some x ≡ some y → x ≡ y
    some_eq h = cc

    kept : Kept pool
    kept = record {
      sound = record {
        reserved = omega arith;
        settled = omega arith;
        released = omega arith;
        within = omega int_laws;
      };
      in_range = record {
        hard_cap = (omega arith, omega arith);
        reserved = (omega arith, omega arith);
        settled = (omega arith, omega arith);
        released = (omega arith, omega arith);
        version = omega arith;
      };
    }

abbrev prize : Definition
prize = record {
  id = 3;
  reward_key = "thirty";
  reward_type = "quota";
  amount = pos 30;
  weight = 1;
  transferable_quota = false;
  config_version = "v1";
  enabled = true;
}

abbrev won : Award
won = record {
  grant_id = "g1";
  period_id = 7;
  user_id = 5;
  action_id = "a1";
  trigger_type = "pulse";
  config_version = "v1";
  random_value = "0123456789abcdef0123456789abcdef0123456789abcdef0123456789abcdef";
  definition = prize;
  at = 1000;
  is_shadow = false;
}

abbrev payload : Payload
payload = record {
  grant_id = "g1";
  user_id = 5;
  amount = pos 30;
  transferable_quota = false;
  source_ref = "g1";
  reward_type = "quota";
}

-- A codec whose canonical bytes have no spaces, and a column that puts one in front.
abbrev strip : List ℕ → List ℕ
strip [] = []
strip (b ∷ bytes) = let rest = strip bytes in if b == 32 then rest else b ∷ rest

abbrev codec : Codec
codec = record {
  reencode = λ bytes. some (strip bytes);
  trailing = λ _. end_of_input;
  decode_first = λ _. some payload;
  unmarshal = λ _. some payload;
  marshal = λ _. 1 ∷ [];
  marshal_sorted = λ _. 2 ∷ [];
  column = λ bytes. 32 ∷ bytes;
  sha256_hex = λ bytes. if length bytes == 1 then "one" else "more";
}

abbrev works : Call → Bool
works _ = false

abbrev cfg : Config
cfg = record { batch_size = 10; lease = 60; base_backoff = 5; max_backoff = 900; max_attempts = 10 }

abbrev paying : World
paying = record {
  fails = works;
  between = λ db. db;
  client = record {
    grant = λ _ _.
        ok (record { applied = true; rolled_back = false; status = "applied"; source_ref = "g1" });
    query = λ _.
        ok (record { applied = true; rolled_back = false; status = "applied"; source_ref = "g1" });
    rollback = λ _ _.
        ok (record {
          applied = false;
          rolled_back = true;
          status = "rolled_back";
          source_ref = "g1";
        });
  };
  now = 2000;
}

abbrev describe : Reason → String
describe _ = "reason"

abbrev reserved : Db
reserved = (run_tx works commit (award_reward works codec won (prize ∷ [])) start).1

abbrev paid : Db
paid = (process_batch cfg describe codec paying (λ _. false) (λ _. paying) reserved).1

abbrev to_paid : Run start paid
to_paid =
    Run.batch cfg describe codec paying (λ _. false) (λ _. paying) (λ o x. Run.rest)
      (Run.award works codec won (prize ∷ []) (omega arith, omega arith) Run.rest)

run-Keeps_example : Keeps start (rollback paying 1 "test" paid).1
run-Keeps_example =
    run-Keeps (Run.rolling_back paying 1 "test" (λ x. Run.rest) to_paid) start-IsBalanced

-- The pool once the prize is paid out.
abbrev paid_pool : Budget
paid_pool = record pool { settled = pos 30; version = 3 }

paid_found : find_row (is_pool 7 "loyalty") paid.budgets ≡ some paid_pool
unfolding process_batch run_tx award_reward find_row is_budget_save is_bound is_grant_create
    canonical_payload_hash is_outbox_create is_outbox_update take settle_awards
    get_budget_for_update save_budget find_grant transition_grant create_grant create_outbox
    find_by_grant save_outbox lease_rows claim_due mark_award_settled is_payable canonical_json_hash
    legacy_payload_hash decode_strict_json is_hashed is_payload_of load_settlement settle_grant
    complete_grant complete judge_query judge counted enact process_one process_all can_reserve
    reserve_budget settle_budget max_prize_from lock_pool reserve_reward store_reward select_rows
    update_row add_int64 sub_int64 is_space is_blank ends_in_space starts_with_space rune_count
    is_valid_text is_hex is_hex_digit is_digest
paid_found = refl

run_within_cap_example :
    sum_of "pending" 7 "loyalty" paid.grants +ℤ sum_of "settled" 7 "loyalty" paid.grants ≤ℤ pos 100
run_within_cap_example =
    run_within_cap start paid 7 "loyalty" paid_pool to_paid start-IsBalanced paid_found

reserved-IsBalanced : IsBalanced reserved
reserved-IsBalanced =
    (run-Keeps (Run.award works codec won (prize ∷ []) (omega arith, omega arith) Run.rest)
      start-IsBalanced).balanced

-- The grant, and the outbox row that is queued for it, claimed once.
abbrev granted : Grant
granted = record (grant_of won) { id = 1 }

abbrev queued : Outbox
queued = stored_row codec (outbox_of codec won granted) 1

abbrev row : Outbox
row = leased 2060 1 queued

awarded : award_reward works codec won (prize ∷ []) start ≡ (ok granted, reserved)
unfolding process_batch run_tx award_reward find_row is_budget_save is_bound is_grant_create
    canonical_payload_hash is_outbox_create is_outbox_update take settle_awards
    get_budget_for_update save_budget find_grant transition_grant create_grant create_outbox
    find_by_grant save_outbox lease_rows claim_due mark_award_settled is_payable canonical_json_hash
    legacy_payload_hash decode_strict_json is_hashed is_payload_of load_settlement settle_grant
    complete_grant complete judge_query judge counted enact process_one process_all can_reserve
    reserve_budget settle_budget max_prize_from lock_pool reserve_reward store_reward select_rows
    update_row add_int64 sub_int64 is_space is_blank ends_in_space starts_with_space rune_count
    is_valid_text is_hex is_hex_digit is_digest
awarded = refl

award_reward-Covers_example : Covers start 7 "loyalty" (pos 30)
award_reward-Covers_example =
    award_reward-Covers works codec won (prize ∷ []) start reserved granted prize awarded here refl
      (omega arith)

queued_found : find_row (is_for 1) reserved.outboxes ≡ some queued
unfolding process_batch run_tx award_reward find_row is_budget_save is_bound is_grant_create
    canonical_payload_hash is_outbox_create is_outbox_update take settle_awards
    get_budget_for_update save_budget find_grant transition_grant create_grant create_outbox
    find_by_grant save_outbox lease_rows claim_due mark_award_settled is_payable canonical_json_hash
    legacy_payload_hash decode_strict_json is_hashed is_payload_of load_settlement settle_grant
    complete_grant complete judge_query judge counted enact process_one process_all can_reserve
    reserve_budget settle_budget max_prize_from lock_pool reserve_reward store_reward select_rows
    update_row add_int64 sub_int64 is_space is_blank ends_in_space starts_with_space rune_count
    is_valid_text is_hex is_hex_digit is_digest
queued_found = refl

named : (b : Bool) → is_empty (if b then "one" else "more") ≡ false
named true = refl
named false = refl

award_reward-load_settlement_example :
    load_settlement paying codec queued reserved ≡ (ok (granted, payload_of granted), reserved)
award_reward-load_settlement_example =
    award_reward-load_settlement works codec won (prize ∷ []) start reserved granted queued paying
      (record {
        canonical = 2 ∷ [];
        written = refl;
        written_end = refl;
        read = refl;
        read_end = refl;
        decoded = refl;
        digest = λ bytes. named (length bytes == 1);
      })
      start-IsBalanced refl refl refl awarded queued_found

abbrev claimed_db : Db
claimed_db = (claim_due works (λ _. false) 2000 10 2060 reserved).1

claims : claim_due works (λ _. false) 2000 10 2060 reserved ≡ (ok (row ∷ []), claimed_db)
unfolding process_batch run_tx award_reward find_row is_budget_save is_bound is_grant_create
    canonical_payload_hash is_outbox_create is_outbox_update take settle_awards
    get_budget_for_update save_budget find_grant transition_grant create_grant create_outbox
    find_by_grant save_outbox lease_rows claim_due mark_award_settled is_payable canonical_json_hash
    legacy_payload_hash decode_strict_json is_hashed is_payload_of load_settlement settle_grant
    complete_grant complete judge_query judge counted enact process_one process_all can_reserve
    reserve_budget settle_budget max_prize_from lock_pool reserve_reward store_reward select_rows
    update_row add_int64 sub_int64 is_space is_blank ends_in_space starts_with_space rune_count
    is_valid_text is_hex is_hex_digit is_digest
claims = refl

-- What a slow worker makes of its first claim. In time it is stored; the lease runs out at 2060, and
-- after the next claim it is refused by the fence.
abbrev late : Outbox
late = record row { status = "conflict"; leased_until = none; last_error = "late" }

in_time : (save_outbox works late claimed_db).0 ≡ ok tt
unfolding process_batch run_tx award_reward find_row is_budget_save is_bound is_grant_create
    canonical_payload_hash is_outbox_create is_outbox_update take settle_awards
    get_budget_for_update save_budget find_grant transition_grant create_grant create_outbox
    find_by_grant save_outbox lease_rows claim_due mark_award_settled is_payable canonical_json_hash
    legacy_payload_hash decode_strict_json is_hashed is_payload_of load_settlement settle_grant
    complete_grant complete judge_query judge counted enact process_one process_all can_reserve
    reserve_budget settle_budget max_prize_from lock_pool reserve_reward store_reward select_rows
    update_row add_int64 sub_int64 is_space is_blank ends_in_space starts_with_space rune_count
    is_valid_text is_hex is_hex_digit is_digest
in_time = refl

abbrev again : Outbox
again = leased 3060 2 row

abbrev reclaimed_db : Db
reclaimed_db = (claim_due works (λ _. false) 3000 10 3060 claimed_db).1

reclaims : claim_due works (λ _. false) 3000 10 3060 claimed_db ≡ (ok (again ∷ []), reclaimed_db)
unfolding process_batch run_tx award_reward find_row is_budget_save is_bound is_grant_create
    canonical_payload_hash is_outbox_create is_outbox_update take settle_awards
    get_budget_for_update save_budget find_grant transition_grant create_grant create_outbox
    find_by_grant save_outbox lease_rows claim_due mark_award_settled is_payable canonical_json_hash
    legacy_payload_hash decode_strict_json is_hashed is_payload_of load_settlement settle_grant
    complete_grant complete judge_query judge counted enact process_one process_all can_reserve
    reserve_budget settle_budget max_prize_from lock_pool reserve_reward store_reward select_rows
    update_row add_int64 sub_int64 is_space is_blank ends_in_space starts_with_space rune_count
    is_valid_text is_hex is_hex_digit is_digest
reclaims = refl

claimed_found : find_row (λ o. o.id == 1) claimed_db.outboxes ≡ some row
unfolding process_batch run_tx award_reward find_row is_budget_save is_bound is_grant_create
    canonical_payload_hash is_outbox_create is_outbox_update take settle_awards
    get_budget_for_update save_budget find_grant transition_grant create_grant create_outbox
    find_by_grant save_outbox lease_rows claim_due mark_award_settled is_payable canonical_json_hash
    legacy_payload_hash decode_strict_json is_hashed is_payload_of load_settlement settle_grant
    complete_grant complete judge_query judge counted enact process_one process_all can_reserve
    reserve_budget settle_budget max_prize_from lock_pool reserve_reward store_reward select_rows
    update_row add_int64 sub_int64 is_space is_blank ends_in_space starts_with_space rune_count
    is_valid_text is_hex is_hex_digit is_digest
claimed_found = refl

fenced_off : (save_outbox works late reclaimed_db).0 ≡ err not_found
unfolding process_batch run_tx award_reward find_row is_budget_save is_bound is_grant_create
    canonical_payload_hash is_outbox_create is_outbox_update take settle_awards
    get_budget_for_update save_budget find_grant transition_grant create_grant create_outbox
    find_by_grant save_outbox lease_rows claim_due mark_award_settled is_payable canonical_json_hash
    legacy_payload_hash decode_strict_json is_hashed is_payload_of load_settlement settle_grant
    complete_grant complete judge_query judge counted enact process_one process_all can_reserve
    reserve_budget settle_budget max_prize_from lock_pool reserve_reward store_reward select_rows
    update_row add_int64 sub_int64 is_space is_blank ends_in_space starts_with_space rune_count
    is_valid_text is_hex is_hex_digit is_digest
fenced_off = refl

claim_due_fences_example : (1 < 2) × IsRefused (save_outbox works late) reclaimed_db
unfolding process_batch run_tx award_reward find_row is_budget_save is_bound is_grant_create
    canonical_payload_hash is_outbox_create is_outbox_update take settle_awards
    get_budget_for_update save_budget find_grant transition_grant create_grant create_outbox
    find_by_grant save_outbox lease_rows claim_due mark_award_settled is_payable canonical_json_hash
    legacy_payload_hash decode_strict_json is_hashed is_payload_of load_settlement settle_grant
    complete_grant complete judge_query judge counted enact process_one process_all can_reserve
    reserve_budget settle_budget max_prize_from lock_pool reserve_reward store_reward select_rows
    update_row add_int64 sub_int64 is_space is_blank ends_in_space starts_with_space rune_count
    is_valid_text is_hex is_hex_digit is_digest
claim_due_fences_example =
    claim_due_fences works works (λ _. false) 3000 10 3060 claimed_db reclaimed_db (again ∷ []) row
      again late (tt, tt) claimed_found reclaims here refl (omega arith)

abbrev processed_db : Db
processed_db = (process_one cfg describe codec paying row claimed_db).1

claimed-IsBalanced : IsBalanced claimed_db
unfolding process_batch run_tx award_reward find_row is_budget_save is_bound is_grant_create
    canonical_payload_hash is_outbox_create is_outbox_update take settle_awards
    get_budget_for_update save_budget find_grant transition_grant create_grant create_outbox
    find_by_grant save_outbox lease_rows claim_due mark_award_settled is_payable canonical_json_hash
    legacy_payload_hash decode_strict_json is_hashed is_payload_of load_settlement settle_grant
    complete_grant complete judge_query judge counted enact process_one process_all can_reserve
    reserve_budget settle_budget max_prize_from lock_pool reserve_reward store_reward select_rows
    update_row add_int64 sub_int64 is_space is_blank ends_in_space starts_with_space rune_count
    is_valid_text is_hex is_hex_digit is_digest
claimed-IsBalanced =
    (Keeps-Same reserved claimed_db reserved-IsBalanced
      (record { budgets = refl; grants = refl; next_grant = refl })).balanced

processes : process_one cfg describe codec paying row claimed_db ≡ (ok "completed", processed_db)
unfolding process_batch run_tx award_reward find_row is_budget_save is_bound is_grant_create
    canonical_payload_hash is_outbox_create is_outbox_update take settle_awards
    get_budget_for_update save_budget find_grant transition_grant create_grant create_outbox
    find_by_grant save_outbox lease_rows claim_due mark_award_settled is_payable canonical_json_hash
    legacy_payload_hash decode_strict_json is_hashed is_payload_of load_settlement settle_grant
    complete_grant complete judge_query judge counted enact process_one process_all can_reserve
    reserve_budget settle_budget max_prize_from lock_pool reserve_reward store_reward select_rows
    update_row add_int64 sub_int64 is_space is_blank ends_in_space starts_with_space rune_count
    is_valid_text is_hex is_hex_digit is_digest
processes = refl

process_one-IsPaidOut_example : IsPaidOut paying codec row claimed_db processed_db
process_one-IsPaidOut_example =
    process_one-IsPaidOut cfg describe codec paying row claimed_db processed_db
      (λ db b. Keeps-refl db b) claimed-IsBalanced processes
