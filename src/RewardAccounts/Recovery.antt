-- ===== src/RewardAccounts/Recovery.antt =====
-- `Reconcile` and `RetryDead` keep the accounts.
use meta_pulse.Prelude.{
  ◌+◌, ◌&&◌, ◌||◌, not, Bool-cases, inl, inr, Option, none, some, String, List, [], ◌∷◌,
}
use meta_pulse.Prelude.Text.{text_eq, is_valid_text, trim_space}
use meta_pulse.Prelude.Result.{Result, ok, err}
use meta_pulse.Prelude.Tx.{◌>>=◌, ◌>>◌, done}
use meta_pulse.RewardStore.{
  Grant, Outbox, Db, Tx, StoreError, Codec, invalid, commit, commit_second, read_grant, find_grant,
  find_grant_by_public_id, find_by_grant, claim_dead, list_for_reconciliation, run_tx,
}
use meta_pulse.RewardAccounts.Balance.{IsBalanced}
use meta_pulse.RewardAccounts.Keeps.{Keeps, Keeps-refl, Keeps-trans, Keeps-Same}
use meta_pulse.RewardAccounts.Steps.{Same-refl, complete-Keeps}
use meta_pulse.RewardAccounts.Careful.{
  IsCareful, IsAside, aside-IsCareful, bind-IsCareful, then-IsCareful, checked-IsCareful,
  bind-IsAside, run_tx-IsAside, find_grant-IsAside, find_public-IsAside, find_by_grant-IsAside,
  list-IsAside, claim_dead-IsAside,
}
use meta_pulse.Settlement.Service.{
  Config, Reply, ClientError, Reason, not_loaded, World, load_settlement, complete, fail_payload,
}
use meta_pulse.Settlement.Passes.{
  Verdict, completes, conflicts, retries, judge_state, judge_recovery, answer, pause, process_one,
  Ending, settles, unchanges, ending_of, found_grant, settle_state, reconcile_answer, reconcile_one,
  reconcile_all, reconciled, reconcile, Reconciliation, tallied, retry_claimed, recover,
  retry_found, retry_dead,
}
use meta_pulse.RewardAccounts.Passes.{
  IsFriendly, answer-IsAside, load-IsAside, either-IsCareful, fail_payload-IsCareful,
  enact-IsCareful, process_one-IsCareful,
}

ending-Keeps :
    {T : Type 0} (db : Db) (e : Ending) (r : Result StoreError T × Db)
    → Keeps db r.1
    → Keeps db (ending_of e r).1
ending-Keeps db e (err x, d) q = q
ending-Keeps db e (ok y, d) q = q

module _ (cfg : Config) (describe : Reason → String) (k : Codec) where
  -- The end of a row of `Reconcile`.
  settle_state-Keeps :
      (w : World) (o : Outbox) (g : Grant) (v : Option Verdict) (db : Db)
      → IsBalanced db
      → Keeps db (settle_state cfg describe k w o g v db).1
  unfolding settle_state
  settle_state-Keeps w o g none db b = Keeps-refl db b
  settle_state-Keeps w o g (some completes) db b =
      ending-Keeps db settles (complete w o g db) (complete-Keeps w o db g b)
  settle_state-Keeps w o g (some (conflicts reason)) db b =
      ending-Keeps db unchanges (fail_payload cfg describe k w o reason db)
        (fail_payload-IsCareful cfg describe k w o reason db b)
  settle_state-Keeps w o g (some retries) db b = Keeps-refl db b

  reconcile_one-Keeps :
      (w : World) (o : Outbox) (db : Db)
      → IsFriendly w
      → IsBalanced db
      → Keeps db (reconcile_one cfg describe k w o db).1
  unfolding reconcile_one reconcile_answer
  reconcile_one-Keeps w o db h b =
      go (run_tx w.fails commit (find_grant w.fails read_grant o.reward_grant_id) db) (
        Keeps-Same db _ b (
          run_tx-IsAside w.fails commit (find_grant w.fails read_grant o.reward_grant_id)
            (find_grant-IsAside w.fails read_grant o.reward_grant_id) db))
    where
      answered :
          (g : Grant) (d : Db) (r : Result ClientError Reply)
          → IsBalanced d
          → Keeps d (reconcile_answer cfg describe k w o g r d).1
      answered g d (err e) q = Keeps-refl d q
      answered g d (ok s) q = settle_state-Keeps w o g (judge_state g.source_ref s) d q

      go :
          (r : Result StoreError Grant × Db)
          → Keeps db r.1
          → Keeps db
              (found_grant
                (λ g d.
                  reconcile_answer cfg describe k w o g (w.client.query g.source_ref) (w.between d))
                r).1
      go (err e, d) q = q
      go (ok g, d) q =
          let meanwhile = h d q.balanced in
          Keeps-trans db d _ q (
            Keeps-trans d (w.between d) _ meanwhile
              (answered g (w.between d) (w.client.query g.source_ref) meanwhile.balanced))

  reconcile_all-Keeps :
      (worlds : Outbox → World) (os : List Outbox) (report : Reconciliation) (db : Db)
      → ((o : Outbox) → IsFriendly (worlds o))
      → IsBalanced db
      → Keeps db (reconcile_all cfg describe k worlds os report db).1
  unfolding reconcile_all
  reconcile_all-Keeps worlds [] report db h b = Keeps-refl db b
  reconcile_all-Keeps worlds (o ∷ os) report db h b =
      let step = reconcile_one-Keeps (worlds o) o db (h o) b in
      let (ending, next) = reconcile_one cfg describe k (worlds o) o db in
      Keeps-trans db next _ step (
        reconcile_all-Keeps worlds os
          (tallied ending (record report { checked = report.checked + 1 })) next h step.balanced)

  -- `Reconcile`
  pub reconcile-IsCareful :
      (w : World) (worlds : Outbox → World)
      → ((o : Outbox) → IsFriendly (worlds o))
      → IsCareful (reconcile cfg describe k w worlds)
  unfolding reconcile
  reconcile-IsCareful w worlds h db b =
      let listing = list_for_reconciliation w.fails cfg.batch_size in
      go (run_tx w.fails commit listing db) (
        Keeps-Same db _ b
          (run_tx-IsAside w.fails commit listing (list-IsAside w.fails cfg.batch_size) db))
    where
      go :
          (r : Result StoreError (List Outbox) × Db)
          → Keeps db r.1
          → Keeps db (reconciled cfg describe k worlds r).1
      go (err e, d) q = q
      go (ok rows, d) q = Keeps-trans db d _ q (reconcile_all-Keeps worlds rows _ d h q.balanced)

  retry_claimed-IsCareful :
      (w again : World) (o : Outbox) (g : Grant) (v : Option Verdict)
      → IsFriendly again
      → IsCareful (retry_claimed cfg describe k w again o g v)
  unfolding retry_claimed
  retry_claimed-IsCareful w again o g (some v) h = enact-IsCareful cfg describe k w o g v
  retry_claimed-IsCareful w again o g none h =
      let claim = claim_dead w.fails g.id o.attempts w.now (w.now + cfg.lease) in
      bind-IsCareful (run_tx w.fails commit_second claim) (process_one cfg describe k again)
        (aside-IsCareful (run_tx w.fails commit_second claim) (
          run_tx-IsAside w.fails commit_second claim
            (claim_dead-IsAside w.fails g.id o.attempts w.now (w.now + cfg.lease))))
        (λ claimed. process_one-IsCareful cfg describe k again claimed h)

  recover-IsCareful :
      (w again : World) (o : Outbox)
      → IsFriendly w
      → IsFriendly again
      → IsCareful (recover cfg describe k w again o)
  unfolding recover
  recover-IsCareful w again o h h' =
      either-IsCareful (load_settlement w k o) (λ e. fail_payload cfg describe k w o (not_loaded e))
        (λ x. answer (w.client.query x.0.source_ref) >>= (λ s.
          pause w >> retry_claimed cfg describe k w again o x.0 (judge_recovery x.0.source_ref s)))
        (aside-IsCareful (load_settlement w k o) (load-IsAside w k o))
        (λ e. fail_payload-IsCareful cfg describe k w o (not_loaded e))
        (λ x.
          bind-IsCareful (answer (w.client.query x.0.source_ref))
            (λ s.
              pause w
              >> retry_claimed cfg describe k w again o x.0 (judge_recovery x.0.source_ref s))
            (aside-IsCareful (answer (w.client.query x.0.source_ref))
              (answer-IsAside (w.client.query x.0.source_ref)))
            (λ s.
              then-IsCareful (pause w)
                (retry_claimed cfg describe k w again o x.0 (judge_recovery x.0.source_ref s)) h
                (retry_claimed-IsCareful w again o x.0 (judge_recovery x.0.source_ref s) h')))

  retry_found-IsCareful :
      (w again : World) (x : Grant × Outbox)
      → IsFriendly w
      → IsFriendly again
      → IsCareful (retry_found cfg describe k w again x)
  unfolding retry_found
  retry_found-IsCareful w again (g, o) h h' db b =
      elim (Bool-cases (text_eq g.status "settled" && text_eq o.status "completed")) [
        | inl e ↦ rw e (Keeps-refl db b)
        | inr e ↦
            elim (Bool-cases (not (text_eq g.status "pending") || not (text_eq o.status "dead"))) [
              | inl n ↦ rw (e, n) (Keeps-refl db b)
              | inr n ↦ rw (e, n) (recover-IsCareful w again o h h' db b)
            ]
      ]

  abbrev both : World → String → Tx (Grant × Outbox)
  both w key =
      find_grant_by_public_id w.fails key
      >>= (λ g. find_by_grant w.fails g.id >>= (λ o. done (g, o)))

  both-IsAside : (w : World) (key : String) → IsAside (both w key)
  both-IsAside w key =
      bind-IsAside (find_grant_by_public_id w.fails key)
        (λ g. find_by_grant w.fails g.id >>= (λ o. done (g, o))) (find_public-IsAside w.fails key)
        (λ g.
          bind-IsAside (find_by_grant w.fails g.id) (λ o. done (g, o))
            (find_by_grant-IsAside w.fails g.id) (λ o. Same-refl))

  -- `RetryDead`
  pub retry_dead-IsCareful :
      (w again : World) (key : String)
      → IsFriendly w
      → IsFriendly again
      → IsCareful (retry_dead cfg describe k w again key)
  unfolding retry_dead
  retry_dead-IsCareful w again key h h' =
      checked-IsCareful (not (is_valid_text 64 (trim_space key))) invalid _ (
        bind-IsCareful (run_tx w.fails commit (both w (trim_space key)))
          (retry_found cfg describe k w again)
          (aside-IsCareful (run_tx w.fails commit (both w (trim_space key))) (
            run_tx-IsAside w.fails commit (both w (trim_space key))
              (both-IsAside w (trim_space key))))
          (λ x. retry_found-IsCareful w again x h h'))
