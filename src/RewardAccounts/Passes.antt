-- ===== src/RewardAccounts/Passes.antt =====
-- Every pass of the settlement service keeps the accounts, whatever fails, whatever the benefit
-- service answers, and whatever else is committed meanwhile that keeps them too.
use meta_pulse.Prelude.{
  ℕ, ◌+◌, ◌==◌, leb, Bool, ◌&&◌, ◌||◌, not, Bool-cases, inl, inr, Option, none, some, String, List,
  [], ◌∷◌, if◌then◌else◌,
}
use meta_pulse.Prelude.Int.{pos}
use meta_pulse.Prelude.Text.{text_eq, is_blank}
use meta_pulse.Prelude.Result.{Result, ok, err}
use meta_pulse.Prelude.Tx.{◌>>=◌, ◌>>◌, done}
use meta_pulse.RewardStore.{
  only_settled, Grant, Outbox, Db, Tx, StoreError, Payload, Codec, invalid, invalid_payload,
  settlement_conflict, commit, read_grant, lock_grant, find_grant, claim_due, run_tx,
}
use meta_pulse.RewardAccounts.Balance.{IsBalanced}
use meta_pulse.RewardAccounts.Keeps.{Keeps, Keeps-refl, Keeps-trans, Keeps-Same}
use meta_pulse.RewardAccounts.Steps.{Same-refl, complete-Keeps, reverse-Keeps, save_outcome-Keeps}
use meta_pulse.RewardAccounts.Careful.{
  IsCareful, IsAside, aside-IsCareful, bind-IsCareful, then-IsCareful, checked-IsCareful,
  checked-IsAside, bind-IsAside, run_tx-IsAside, find_grant-IsAside, claim_due-IsAside,
}
use meta_pulse.Settlement.Service.{
  Config, Reply, ClientError, Reason, not_loaded, World, either, decoded, is_payable, is_hashed,
  is_payload_of, decode_strict_json, load_settlement, complete, save_outcome, retry, fail_payload,
  last_error, same_source_ref,
}
use meta_pulse.Settlement.{backoff, later}
use meta_pulse.Settlement.Passes.{
  reversible, Verdict, completes, conflicts, retries, judge, answer, pause, reverse, rollback,
  rollback_settled, enact, process_one, process_all, process_batch, processed, counted, Report,
}

-- What the others commit keeps the accounts.
abbrev pub IsFriendly : World → Type 0
IsFriendly w = (db : Db) → IsBalanced db → Keeps db (w.between db)

pub answer-IsAside : (r : Result ClientError Reply) → IsAside (answer r)
answer-IsAside (err e) = Same-refl
answer-IsAside (ok s) = Same-refl

decoded-IsAside : (o : Option Payload) → IsAside (decoded o)
decoded-IsAside none = Same-refl
decoded-IsAside (some p) = Same-refl

pub load-IsAside : (w : World) (k : Codec) (o : Outbox) → IsAside (load_settlement w k o)
unfolding load_settlement
load-IsAside w k o =
    bind-IsAside (run_tx w.fails commit (find_grant w.fails read_grant o.reward_grant_id)) _
      (run_tx-IsAside w.fails commit (find_grant w.fails read_grant o.reward_grant_id)
        (find_grant-IsAside w.fails read_grant o.reward_grant_id))
      λ g. checked-IsAside (not (is_payable g)) invalid_payload _ (
        checked-IsAside (not (is_hashed k o)) invalid_payload _ (
          bind-IsAside (decoded (decode_strict_json k o.payload_json)) _
            (decoded-IsAside (decode_strict_json k o.payload_json))
            λ p. checked-IsAside (not (is_payload_of g p)) invalid_payload (done (g, p)) Same-refl))

-- A load, and either way on from it.
pub either-IsCareful :
    {T U : Type 0} (m : Tx T) (f : StoreError → Tx U) (g : T → Tx U)
    → IsCareful m
    → ((e : StoreError) → IsCareful (f e))
    → ((x : T) → IsCareful (g x))
    → IsCareful (λ db. either f g (m db))
either-IsCareful {T = T} m f g h k l db b = go (m db) (h db b)
  where
    go : (r : Result StoreError T × Db) → Keeps db r.1 → Keeps db (either f g r).1
    go (err e, d) q = Keeps-trans db d (f e d).1 q (k e d q.balanced)
    go (ok x, d) q = Keeps-trans db d (g x d).1 q (l x d q.balanced)

done-IsCareful : {T : Type 0} (x : T) → IsCareful (done x)
done-IsCareful x db b = Keeps-refl db b

saved : {T : Type 0} (w : World) (o : Outbox) (x : T) → IsCareful (save_outcome w o >> done x)
saved w o x = then-IsCareful (save_outcome w o) (done x) (save_outcome-Keeps w o) (done-IsCareful x)

rollback_settled-IsCareful :
    (w : World) (reason : String) (g : Grant)
    → IsFriendly w
    → IsCareful (rollback_settled w reason g)
unfolding rollback_settled
rollback_settled-IsCareful w reason g h db b = elim (Bool-cases (text_eq g.status "reversed")) [
  | inl e ↦ rw e (Keeps-refl db b)
  | inr e ↦ elim (Bool-cases (text_eq g.reward_type "community_exp")) [
    | inl x ↦ rw (e, x) (Keeps-refl db b)
    | inr x ↦
        rw (e, x)
          (bind-IsCareful (answer (w.client.rollback g.source_ref reason)) _
            (aside-IsCareful (answer (w.client.rollback g.source_ref reason))
              (answer-IsAside (w.client.rollback g.source_ref reason)))
            (λ s.
              checked-IsCareful
                (not s.rolled_back || s.applied || not (same_source_ref s.source_ref g.source_ref))
                settlement_conflict (pause w >> reverse w g)
                (then-IsCareful (pause w) (reverse w g) h (λ d c. reverse-Keeps w d g c)))
            db b)
  ]
]

reversible-IsAside :
    (w : World) (id : ℕ) → IsAside (find_grant w.fails lock_grant id >>= reversible)
reversible-IsAside w id =
    bind-IsAside (find_grant w.fails lock_grant id) reversible
      (find_grant-IsAside w.fails lock_grant id)
      (λ g.
        checked-IsAside (not (text_eq g.status "reversed") && not (text_eq g.status "settled"))
          only_settled (done g) Same-refl)

-- `Rollback`
pub rollback-IsCareful :
    (w : World) (id : ℕ) (reason : String) → IsFriendly w → IsCareful (rollback w id reason)
unfolding rollback
rollback-IsCareful w id reason h = checked-IsCareful (id == 0 || is_blank reason) invalid _ (
    bind-IsCareful (run_tx w.fails commit (find_grant w.fails lock_grant id >>= reversible))
      (rollback_settled w reason)
      (aside-IsCareful (run_tx w.fails commit (find_grant w.fails lock_grant id >>= reversible)) (
        run_tx-IsAside w.fails commit (find_grant w.fails lock_grant id >>= reversible)
          (reversible-IsAside w id)))
      (λ g. rollback_settled-IsCareful w reason g h))

module _ (cfg : Config) (describe : Reason → String) (k : Codec) where
  retry-IsCareful : (w : World) (o : Outbox) (r : Reason) → IsCareful (retry cfg describe k w o r)
  unfolding retry
  retry-IsCareful w o r =
      let is_dead = leb cfg.max_attempts o.attempts in
      let status : String = if is_dead then "dead" else "retry" in
      saved w
        (record o {
          status = status;
          leased_until = none;
          last_error = last_error cfg describe k r;
          next_attempt_at =
              if is_dead
              then w.now
              else later w.now (backoff (pos cfg.base_backoff) (pos cfg.max_backoff) o.attempts);
        })
        status

  pub fail_payload-IsCareful :
      (w : World) (o : Outbox) (r : Reason) → IsCareful (fail_payload cfg describe k w o r)
  unfolding fail_payload
  fail_payload-IsCareful w o r =
      let status : String = "conflict" in
      saved w
        (record o {
          status = status;
          leased_until = none;
          next_attempt_at = w.now;
          last_error = last_error cfg describe k r;
        })
        status

  pub enact-IsCareful :
      (w : World) (o : Outbox) (g : Grant) (v : Verdict) → IsCareful (enact cfg describe k w o g v)
  unfolding enact
  enact-IsCareful w o g completes =
      let status : String = "completed" in
      then-IsCareful (complete w o g) (done status) (λ db. complete-Keeps w o db g)
        (done-IsCareful status)
  enact-IsCareful w o g (conflicts reason) = fail_payload-IsCareful w o reason
  enact-IsCareful w o g retries = retry-IsCareful w o Reason.unconfirmed

  pub process_one-IsCareful :
      (w : World) (o : Outbox) → IsFriendly w → IsCareful (process_one cfg describe k w o)
  unfolding process_one
  process_one-IsCareful w o h =
      either-IsCareful (load_settlement w k o)
        (λ e. pause w >> fail_payload cfg describe k w o (not_loaded e))
        (λ x.
          pause w
          >> enact cfg describe k w o x.0 (
              judge x.0.source_ref (w.client.grant x.1 o.payload_hash)
                (w.client.query x.0.source_ref)))
        (aside-IsCareful (load_settlement w k o) (load-IsAside w k o))
        (λ e.
          then-IsCareful (pause w) (fail_payload cfg describe k w o (not_loaded e)) h
            (fail_payload-IsCareful w o (not_loaded e)))
        (λ x.
          let v =
            judge x.0.source_ref (w.client.grant x.1 o.payload_hash)
              (w.client.query x.0.source_ref) in
          then-IsCareful (pause w) (enact cfg describe k w o x.0 v) h (enact-IsCareful w o x.0 v))

  process_all-Keeps :
      (worlds : Outbox → World) (os : List Outbox) (report : Report) (db : Db)
      → ((o : Outbox) → IsFriendly (worlds o))
      → IsBalanced db
      → Keeps db (process_all cfg describe k worlds os report db).1
  unfolding process_all
  process_all-Keeps worlds [] report db h b = Keeps-refl db b
  process_all-Keeps worlds (o ∷ os) report db h b =
      let step = process_one-IsCareful (worlds o) o (h o) db b in
      let (status, next) = process_one cfg describe k (worlds o) o db in
      Keeps-trans db next _ step
        (process_all-Keeps worlds os (counted status report) next h step.balanced)

  -- `ProcessBatch`
  pub process_batch-IsCareful :
      (w : World) (locked : Outbox → Bool) (worlds : Outbox → World)
      → ((o : Outbox) → IsFriendly (worlds o))
      → IsCareful (process_batch cfg describe k w locked worlds)
  unfolding process_batch
  process_batch-IsCareful w locked worlds h db b =
      let claim = claim_due w.fails locked w.now cfg.batch_size (w.now + cfg.lease) in
      go (run_tx w.fails commit claim db) (
        Keeps-Same db _ b (
          run_tx-IsAside w.fails commit claim
            (claim_due-IsAside w.fails locked w.now cfg.batch_size (w.now + cfg.lease)) db))
    where
      go :
          (r : Result StoreError (List Outbox) × Db)
          → Keeps db r.1
          → Keeps db (processed cfg describe k worlds r).1
      go (err e, d) q = q
      go (ok claimed, d) q =
          Keeps-trans db d _ q (process_all-Keeps worlds claimed _ d h q.balanced)
