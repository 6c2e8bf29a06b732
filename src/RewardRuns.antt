-- ===== src/RewardRuns.antt =====
-- The life of the reward tables: any interleaving of actions that win a reward with the passes of
-- `SettlementService`, each with its own failures, answers and transactions meanwhile.
mod Tests
use meta_pulse.Prelude.{ℕ, ◌≡◌, sym, ap, subst, Bool, String, List, some, ◌∙◌}
use meta_pulse.Prelude.Int.{ℤ, pos, ◌+ℤ◌, ◌≤ℤ◌}
use meta_pulse.Prelude.Word.{IsInt64}
use meta_pulse.Prelude.Table.{find_row}
use meta_pulse.Budget.{Budget, limit_of}
use meta_pulse.Budget.Sound.{IsSound}
use meta_pulse.Reward.{Definition}
use meta_pulse.RewardStore.{Grant, Outbox, Db, Call, Codec, commit, is_pool, run_tx}
use meta_pulse.RewardAccounts.Balance.{IsBalanced, Tied, sum_of}
use meta_pulse.RewardAccounts.Keeps.{Keeps, Keeps-refl, Keeps-trans, run_tx-Keeps}
use meta_pulse.RewardAccounts.Passes.{process_batch-IsCareful, rollback-IsCareful}
use meta_pulse.RewardAccounts.Recovery.{reconcile-IsCareful, retry_dead-IsCareful}
use meta_pulse.Settlement.Service.{Config, World, Reason}
use meta_pulse.Settlement.Passes.{process_batch, reconcile, rollback, retry_dead}
use meta_pulse.Action.{Award, award_reward}
use meta_pulse.Action.Awarded.{award_reward-Ensures}

-- What others commit in the middle of a pass is itself such a history.
pub data Run : Db → Db → Type 0 where
  rest : {db : Db} → Run db db
  award :
      {db d : Db} (fails : Call → Bool) (k : Codec) (a : Award) (ds : List Definition)
      → IsInt64 a.definition.amount
      → Run db d
      → Run db (run_tx fails commit (award_reward fails k a ds) d).1
  batch :
      {db d : Db} (cfg : Config) (describe : Reason → String) (k : Codec) (w : World)
      (locked : Outbox → Bool) (worlds : Outbox → World)
      → ((o : Outbox) (x : Db) → Run x ((worlds o).between x))
      → Run db d
      → Run db (process_batch cfg describe k w locked worlds d).1
  reconciliation :
      {db d : Db} (cfg : Config) (describe : Reason → String) (k : Codec) (w : World)
      (worlds : Outbox → World)
      → ((o : Outbox) (x : Db) → Run x ((worlds o).between x))
      → Run db d
      → Run db (reconcile cfg describe k w worlds d).1
  recovery :
      {db d : Db} (cfg : Config) (describe : Reason → String) (k : Codec) (w again : World)
      (key : String)
      → ((x : Db) → Run x (w.between x))
      → ((x : Db) → Run x (again.between x))
      → Run db d
      → Run db (retry_dead cfg describe k w again key d).1
  rolling_back :
      {db d : Db} (w : World) (id : ℕ) (reason : String)
      → ((x : Db) → Run x (w.between x))
      → Run db d
      → Run db (rollback w id reason d).1

next_Keeps : (db d e : Db) → Keeps db d → (IsBalanced d → Keeps d e) → Keeps db e
next_Keeps db d e k step = Keeps-trans db d e k (step k.balanced)

-- Whatever actions and passes run, whatever fails and whatever the benefit service answers, tables
-- whose budgets agree with their grants stay so: each budget's reserved, settled and released
-- amounts are the sums of its pending, settled and reversed grants, and every grant is still there
-- with its amount and budget, in its status or a later one.
pub run-Keeps : {db d : Db} → Run db d → IsBalanced db → Keeps db d
run-Keeps {db = db} rest b = Keeps-refl db b
run-Keeps {db = db} (award {d = d} fails k a ds h r) b = next_Keeps db d _ (run-Keeps r b) (λ q.
    run_tx-Keeps fails commit (award_reward fails k a ds) d q
      (award_reward-Ensures fails k a ds d q h))
run-Keeps {db = db} (batch {d = d} cfg describe k w locked worlds h r) b =
    next_Keeps db d _ (run-Keeps r b) (λ q.
      process_batch-IsCareful cfg describe k w locked worlds (λ o x c. run-Keeps (h o x) c) d q)
run-Keeps {db = db} (reconciliation {d = d} cfg describe k w worlds h r) b =
    next_Keeps db d _ (run-Keeps r b)
      (λ q. reconcile-IsCareful cfg describe k w worlds (λ o x c. run-Keeps (h o x) c) d q)
run-Keeps {db = db} (recovery {d = d} cfg describe k w again key h h' r) b =
    next_Keeps db d _ (run-Keeps r b) (λ q.
      retry_dead-IsCareful cfg describe k w again key (λ x c. run-Keeps (h x) c)
        (λ x c. run-Keeps (h' x) c) d q)
run-Keeps {db = db} (rolling_back {d = d} w id reason h r) b =
    next_Keeps db d _ (run-Keeps r b)
      (λ q. rollback-IsCareful w id reason (λ x c. run-Keeps (h x) c) d q)

-- After any such history, the pending and the settled grants of a budget add up to no more than
-- its limit.
pub run_within_cap :
    (db d : Db) (p : ℕ) (t : String) (b : Budget)
    → Run db d
    → IsBalanced db
    → find_row (is_pool p t) d.budgets ≡ some b
    → sum_of "pending" p t d.grants +ℤ sum_of "settled" p t d.grants ≤ℤ limit_of b
run_within_cap db d p t b r h f =
    let (kept, tied) = (run-Keeps r h).balanced.pools p t b f in
    subst (λ x. x +ℤ sum_of "settled" p t d.grants ≤ℤ limit_of b) tied.reserved
      (subst (λ x. b.reserved +ℤ x ≤ℤ limit_of b) tied.settled kept.sound.within)
