-- ===== src/Action/Loaded.antt =====
-- What `Execute` stores for the settlement service is what `loadSettlement` reads back.
use meta_pulse.Prelude.{
  ℕ, ◌==◌, ◌≡◌, refl, sym, ap, subst, ◌∙◌, Bool, true, false, Bool-cases, inl, inr, some, String,
  List, arith, ==_iff,
}
use meta_pulse.Prelude.Text.{text_eq, text_eq_iff, is_empty, is_blank, is_valid_text}
use meta_pulse.Prelude.Result.{ok}
use meta_pulse.Prelude.Tx.{Ensures-at}
use meta_pulse.Prelude.Table.{find_row}
use meta_pulse.Reward.{Definition}
use meta_pulse.RewardStore.{
  Grant, Outbox, Db, Call, commit, read_grant, Codec, Payload, end_of_input, is_grant,
  is_grant_create, find_grant, run_tx,
}
use meta_pulse.RewardAccounts.Balance.{IsBalanced}
use meta_pulse.Settlement.Service.{
  World, is_payable, is_hashed, is_payload_of, canonical_json_hash, decode_strict_json,
  load_settlement,
}
use meta_pulse.Action.{Award, grant_of, payload_of, outbox_of, reward_budget, award_reward}
use meta_pulse.Action.Stored.{is_for, stored_row, IsStored, award_reward-IsStored}

-- encoding/json reads the payload that it wrote, to its end, also from the bytes that the JSON column
-- gives back, and re-encodes both to the same canonical bytes; a digest is not empty.
pub record IsFaithful (k : Codec) (p : Payload) : Type 0 where
  pub canonical : List ℕ
  pub written : k.reencode (k.marshal_sorted p) ≡ some canonical
  pub written_end : k.trailing (k.marshal_sorted p) ≡ end_of_input
  pub read : k.reencode (k.column (k.marshal_sorted p)) ≡ some canonical
  pub read_end : k.trailing (k.column (k.marshal_sorted p)) ≡ end_of_input
  pub decoded : k.decode_first (k.column (k.marshal_sorted p)) ≡ some p
  pub digest : (bytes : List ℕ) → is_empty (k.sha256_hex bytes) ≡ false

same_text : (s : String) → text_eq s s ≡ true
same_text s = (text_eq_iff s s).1 refl

-- What the creation of the grant checked, as the settlement checks it again.
created_payable :
    (g : Grant) (id : ℕ)
    → is_grant_create g ≡ true
    → is_blank g.budget_type ≡ false
    → is_payable (record g { id = id }) ≡ true
unfolding is_grant_create is_payable is_valid_text
created_payable g id h b = ground (arith, h, b, text_eq_iff g.grant_id g.source_ref)

reward_budget_named : (t : String) → is_blank (reward_budget t) ≡ false
unfolding is_blank
reward_budget_named t = elim (Bool-cases (text_eq t "community_exp")) [
  | inl e ↦ rw e refl
  | inr e ↦ rw e refl
]

find_grant-found :
    (fails : Call → Bool) (c : Call) (id : ℕ) (g : Grant) (db : Db)
    → id == 0 ≡ false
    → fails c ≡ false
    → find_row (is_grant id) db.grants ≡ some g
    → find_grant fails c id db ≡ (ok g, db)
unfolding find_grant
find_grant-found fails c id g db n up f = rw (n, up, f) refl

-- Each check of the load passes.
loads :
    (w : World) (k : Codec) (o : Outbox) (g : Grant) (p : Payload) (db : Db)
    → run_tx w.fails commit (find_grant w.fails read_grant o.reward_grant_id) db ≡ (ok g, db)
    → is_payable g ≡ true
    → is_hashed k o ≡ true
    → decode_strict_json k o.payload_json ≡ some p
    → is_payload_of g p ≡ true
    → load_settlement w k o db ≡ (ok (g, p), db)
unfolding load_settlement
loads w k o g p db f a b c e = rw (f, a, b, c, e) refl

found_by :
    (w : World) (id : ℕ) (g : Grant) (db : Db)
    → id == 0 ≡ false
    → w.fails read_grant ≡ false
    → w.fails commit ≡ false
    → find_row (is_grant id) db.grants ≡ some g
    → run_tx w.fails commit (find_grant w.fails read_grant id) db ≡ (ok g, db)
unfolding run_tx
found_by w id g db n up done_ f =
    rw (find_grant-found w.fails read_grant id g db n up f, done_) refl

own_payload :
    (g : Grant)
    → text_eq g.reward_type "community_exp" ≡ false
    → g.grant_id ≡ g.source_ref
    → is_payload_of g (payload_of g) ≡ true
unfolding is_payload_of
own_payload g t h =
    rw (t, h, same_text g.source_ref, (==_iff g.user_id g.user_id).1 refl, same_text g.reward_type)
      (ground arith)

-- The hash of the bytes as they were written, and of the bytes that are read back.
written_hash :
    (k : Codec) (p : Payload) (law : IsFaithful k p)
    → canonical_json_hash k (k.marshal_sorted p) ≡ k.sha256_hex law.canonical
unfolding canonical_json_hash
written_hash k p law = rw (canonical_json_hash, law.written, law.written_end) refl

read_hash :
    (k : Codec) (p : Payload) (law : IsFaithful k p)
    → canonical_json_hash k (k.column (k.marshal_sorted p)) ≡ k.sha256_hex law.canonical
unfolding canonical_json_hash
read_hash k p law = rw (canonical_json_hash, law.read, law.read_end) refl

own_hash :
    (k : Codec) (p : Payload) (o : Outbox)
    → IsFaithful k p
    → o.payload_hash ≡ canonical_json_hash k (k.marshal_sorted p)
    → o.payload_json ≡ k.column (k.marshal_sorted p)
    → is_hashed k o ≡ true
unfolding is_hashed
own_hash k p o law h j =
    rw
      (
        h,
        j,
        written_hash k p law,
        read_hash k p law,
        law.digest law.canonical,
        same_text (k.sha256_hex law.canonical),
      )
      refl

own_decode :
    (k : Codec) (p : Payload)
    → IsFaithful k p
    → decode_strict_json k (k.column (k.marshal_sorted p)) ≡ some p
unfolding decode_strict_json
own_decode k p law = rw (decode_strict_json, law.decoded, law.read_end) refl

some_eq {ℓ} : {A : Type ℓ} {x y : A} → some x ≡ some y → x ≡ y
some_eq h = cc

-- What `Execute` stores for a reward that is not community experience, `loadSettlement` reads back:
-- if the grant's outbox row is found in the tables that the action leaves and no read fails, the
-- load returns the very grant of the action and the payload of that grant, although the JSON column
-- may give back other bytes than were written. The tables' budgets agree with their grants, and the
-- codec reads this payload from either bytes and re-encodes both alike.
pub award_reward-load_settlement :
    (fails : Call → Bool) (k : Codec) (a : Award) (ds : List Definition) (db d : Db) (g : Grant)
    (o : Outbox) (w : World)
    → IsFaithful k (payload_of g)
    → IsBalanced db
    → text_eq a.definition.reward_type "community_exp" ≡ false
    → w.fails read_grant ≡ false
    → w.fails commit ≡ false
    → award_reward fails k a ds db ≡ (ok g, d)
    → find_row (is_for g.id) d.outboxes ≡ some o
    → load_settlement w k o d ≡ (ok (g, payload_of g), d)
award_reward-load_settlement fails k a ds db d g o w law b t up done_ q f =
    let s = Ensures-at (IsStored k a db) q (award_reward-IsStored fails k a db b ds) in
    let is_o : o ≡ stored_row k (outbox_of k a g) db.next_outbox = some_eq (sym f ∙ s.queued) in
    let for_g : o.reward_grant_id ≡ g.id = ap (λ (x : Outbox). x.reward_grant_id) is_o in
    let payable : is_payable g ≡ true =
      subst (λ x. is_payable x ≡ true) (sym s.is_row)
        (created_payable (grant_of a) db.next_grant s.valid
          (reward_budget_named a.definition.reward_type)) in
    let kind : text_eq g.reward_type "community_exp" ≡ false =
      subst (λ (x : Grant). text_eq x.reward_type "community_exp" ≡ false) (sym s.is_row) t in
    let refs : g.grant_id ≡ g.source_ref =
      subst (λ (x : Grant). x.grant_id ≡ x.source_ref) (sym s.is_row) refl in
    loads w k o g (payload_of g) d
      (subst (λ id. run_tx w.fails commit (find_grant w.fails read_grant id) d ≡ (ok g, d))
        (sym for_g) (found_by w g.id g d s.named up done_ s.granted))
      payable
      (own_hash k (payload_of g) o law (ap (λ (x : Outbox). x.payload_hash) is_o)
        (ap (λ (x : Outbox). x.payload_json) is_o))
      (ap (λ (x : Outbox). decode_strict_json k x.payload_json) is_o
        ∙ own_decode k (payload_of g) law)
      (own_payload g kind refs)
