-- ===== src/Idempotency/Tests.antt =====
-- An action request is answered once; a second answer and a second look come later.
use meta_pulse.Prelude.{◌≡◌, refl, Bool, false, none, some, String, [], ◌∷◌}
use meta_pulse.Prelude.Int.{pos}
use meta_pulse.Prelude.Result.{ok}
use meta_pulse.Prelude.Table.{find_row, update_row}
use meta_pulse.Prelude.Text.{
  is_space, is_blank, ends_in_space, starts_with_space, rune_count, is_valid_text, is_hex,
  is_hex_digit, is_digest, has_prefix,
}
use meta_pulse.RewardStore.{Codec, end_of_input, canonical_payload_hash}
use meta_pulse.Idempotency.{
  Request, Requests, RequestCall, is_identity, is_request_save, get_or_create_request,
  save_response,
}
use meta_pulse.Idempotency.Kept.{IsAnswered, History, response_replays}

abbrev hash : String
hash = "0123456789abcdef0123456789abcdef0123456789abcdef0123456789abcdef"

abbrev other_hash : String
other_hash = "ffffffffffffffffffffffffffffffffffffffffffffffffffffffffffffffff"

abbrev json : Codec
json = record {
  reencode = λ bytes. some bytes;
  trailing = λ _. end_of_input;
  decode_first = λ _. none;
  unmarshal = λ _. none;
  marshal = λ _. 1 ∷ [];
  marshal_sorted = λ _. 2 ∷ [];
  column = λ bytes. 32 ∷ bytes;
  sha256_hex = λ _. hash;
}

abbrev works : RequestCall → Bool
works _ = false

abbrev blank : Requests
blank = record { rows = []; next_id = 1 }

abbrev answered : Request
answered = record {
  id = 1;
  scope = "pulse_action_request:5";
  key = "k1";
  payload_hash = hash;
  response_status = some (pos 201);
  response_json = 32 ∷ 7 ∷ [];
  resource_type = "reward_grant";
  resource_id = "g1";
  expires_at = none;
}

-- The answer as it is sent; the column puts a space before it.
abbrev sent : Request
sent = record answered { response_json = 7 ∷ [] }

abbrev asked_db : Requests
asked_db = (get_or_create_request works "pulse_action_request:5" "k1" hash blank).1

abbrev answered_db : Requests
answered_db = (save_response works json sent asked_db).1

answered-IsAnswered : IsAnswered answered answered_db
unfolding save_response get_or_create_request is_identity is_request_save find_row update_row
    canonical_payload_hash has_prefix is_space is_blank ends_in_space starts_with_space rune_count
    is_valid_text is_hex is_hex_digit is_digest
answered-IsAnswered = record { held = refl; answered = refl }

-- Another answer, and a request under another key.
abbrev again : Request
again = record answered { response_json = 8 ∷ []; resource_id = "g2" }

abbrev later_db : Requests
later_db =
    (get_or_create_request works "pulse_action_request:5" "k2" hash
      (save_response works json again answered_db).1).1

replays :
    get_or_create_request works "pulse_action_request:5" "k1" other_hash later_db
    ≡ (ok answered, later_db)
unfolding save_response get_or_create_request is_identity is_request_save find_row update_row
    canonical_payload_hash has_prefix is_space is_blank ends_in_space starts_with_space rune_count
    is_valid_text is_hex is_hex_digit is_digest
replays = refl

response_replays_example : ◌≡◌ {A = Request} answered answered
response_replays_example =
    response_replays works other_hash answered answered answered-IsAnswered
      (History.looks works "pulse_action_request:5" "k2" hash
        (History.saves works json again (History.start {db = answered_db})))
      replays
