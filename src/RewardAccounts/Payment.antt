-- ===== src/RewardAccounts/Payment.antt =====
-- A grant is reported completed only when it is paid: the benefit service has said so under the
-- grant's own source reference, and the grant's row is settled.
use meta_pulse.Prelude.{
  ℕ, ◌==◌, ◌≡◌, ◌≢◌, ◌⊎◌, refl, sym, ap, subst, ◌∙◌, Bool, true, false, ◌&&◌, not, Bool-cases, inl,
  inr, some, String, List, ◌∷◌, ◌++◌, arith, leb,
}
use meta_pulse.Prelude.Text.{text_eq, text_eq_iff}
use meta_pulse.Prelude.Result.{Result, ok, err}
use meta_pulse.Prelude.Tx.{Ensures, Ensures-at, Ensures-after, after, finish, done}
use meta_pulse.Prelude.Table.{find_row, find_row_holds, find_row-hit, Unique}
use meta_pulse.RewardStore.{
  Grant, Outbox, Db, Tx, Call, StoreError, infrastructure, commit_second, lock_grant, Payload,
  Codec, is_grant, find_grant, run_tx, mark_award_settled, save_outbox,
}
use meta_pulse.RewardAccounts.Balance.{IsBalanced, grant_id}
use meta_pulse.RewardAccounts.Effects.{find_grant-Ensures, settled_at}
use meta_pulse.RewardAccounts.Moves.{Moves, settle_grant-Moves}
use meta_pulse.RewardAccounts.Keeps.{Same, Keeps, Keeps-Same}
use meta_pulse.RewardAccounts.Steps.{
  Ensures-of, at_own_id, mark-Same, save_outbox-Same, forgive-Same,
}
use meta_pulse.RewardAccounts.Passes.{IsFriendly, load-IsAside}
use meta_pulse.Settlement.Service.{
  Config, Reply, ClientError, payload_conflict, Reason, not_loaded, unconfirmed, World,
  same_source_ref, either, load_settlement, complete, complete_grant, completed, forgive,
  settle_grant, retry, fail_payload,
}
use meta_pulse.Settlement.Passes.{
  Verdict, completes, conflicts, retries, judge, judge_query, enact, process_one,
}

-- The grant of an identity is settled.
abbrev pub IsPaid : ℕ → Db → Type 0
IsPaid id d = (g : Grant) × (find_row (is_grant id) d.grants ≡ some g) × (g.status ≡ "settled")

paid_Same : (id : ℕ) (db d : Db) → Same db d → IsPaid id db → IsPaid id d
paid_Same id db d s (g, f, h) = (g, ap (find_row (is_grant id)) s.grants ∙ f, h)

Moves-found :
    (db d : Db) (id : ℕ) (g : Grant) (change : Grant → Grant)
    → IsBalanced db
    → find_row (is_grant id) db.grants ≡ some g
    → Moves change g db d
    → find_row (is_grant id) d.grants ≡ some (change g)
Moves-found db d id g change b f m =
    let old : find_row (is_grant id) (m.row.pre ++ g ∷ m.row.post) ≡ some g =
      ap (find_row (is_grant id)) (sym m.row.before) ∙ f in
    let hit =
      find_row-hit grant_id (is_grant id) m.row.pre m.row.post g (change g)
        (subst (λ (xs : List Grant). Unique grant_id xs) m.row.before b.grant_ids) old
        ((λ i. m.advanced.id i == id) ∙ find_row_holds (is_grant id) db.grants f) in
    ap (find_row (is_grant id)) m.row.after ∙ hit

run_tx-Ensures :
    {T : Type 0} (P : T → Db → Type 0) (fails : Call → Bool) (c : Call) (body : Tx T) (db : Db)
    → Ensures P (body db)
    → Ensures P (run_tx fails c body db)
unfolding run_tx
run_tx-Ensures {T = T} P fails c body db h = finished (body db) h
  where
    finished :
        (r : Result StoreError T × Db)
        → Ensures P r
        → Ensures P (finish (fails c) infrastructure db r)
    finished (err e, d) k = tt
    finished (ok x, d) k = elim (Bool-cases (fails c)) [ inl e ↦ rw e tt | inr e ↦ rw e k ]

module _ (w : World) (o : Outbox) where
  closed_paid :
      (id : ℕ) (db : Db) (g : Grant) (settled : Bool)
      → IsPaid id db
      → Ensures
          (λ _ d. IsPaid id d)
          (after
            (mark_award_settled w.fails g.grant_id db)
            (λ _ d. forgive settled (save_outbox w.fails (completed w.now o) d)))
  closed_paid id db g settled p =
      Ensures-after (λ _ d. IsPaid id d) _ (mark_award_settled w.fails g.grant_id db) _
        (Ensures-of (IsPaid id) (mark_award_settled w.fails g.grant_id db) (
          paid_Same id db (mark_award_settled w.fails g.grant_id db).1
            (mark-Same w.fails g.grant_id db) p))
        (λ _ d q.
          Ensures-of (IsPaid id) (forgive settled (save_outbox w.fails (completed w.now o) d)) (
            paid_Same id d _
              (forgive-Same settled d (save_outbox w.fails (completed w.now o) d)
                (save_outbox-Same w.fails (completed w.now o) d))
              q))

  complete_grant_paid :
      (id : ℕ) (db : Db) (g : Grant)
      → IsBalanced db
      → find_row (is_grant id) db.grants ≡ some g
      → Ensures (λ _ d. IsPaid id d) (complete_grant w o g db)
  unfolding complete_grant
  complete_grant_paid id db g b f = elim (Bool-cases (text_eq g.status "settled")) [
    | inl e ↦ rw e (closed_paid id db g true (g, f, (text_eq_iff g.status "settled").0 e))
    | inr e ↦ rw e (
        Ensures-after (λ _ d. Moves (settled_at w.now) g db d) (λ _ d. IsPaid id d)
          (settle_grant w g db) _ (settle_grant-Moves w db g b (at_own_id db id g f))
          (λ _ d m.
            closed_paid id d g false
              (settled_at w.now g, Moves-found db d id g (settled_at w.now) b f m, refl)))
  ]

  complete_paid :
      (db : Db) (g : Grant) → IsBalanced db → Ensures (λ _ d. IsPaid g.id d) (complete w o g db)
  unfolding complete
  complete_paid db g b = run_tx-Ensures _ w.fails commit_second _ db (
      Ensures-after _ (λ _ d. IsPaid g.id d) (find_grant w.fails lock_grant g.id db) _
        (find_grant-Ensures w.fails lock_grant g.id db)
        (λ current d (f, same). rw same (complete_grant_paid g.id db current b f)))

-- A confirmation among the two answers of the benefit service.
pub record IsConfirmed (expected : String) (granted queried : Result ClientError Reply)
    : Type 0 where
  reply : Reply
  answer : (granted ≡ ok reply) ⊎ (queried ≡ ok reply)
  applied : reply.applied ≡ true
  own : reply.source_ref ≡ expected

same_ref : (s e : String) → same_source_ref s e ≡ true → s ≡ e
same_ref s e h = (text_eq_iff s e).0 (ground (arith, h))

judge_query-IsConfirmed :
    (expected : String) (granted queried : Result ClientError Reply)
    → judge_query expected queried ≡ completes
    → IsConfirmed expected granted queried
unfolding judge_query
judge_query-IsConfirmed expected granted (err e) h = cc
judge_query-IsConfirmed expected granted (ok s) h =
    elim (Bool-cases (s.applied && same_source_ref s.source_ref expected)) [
      | inl e ↦ record {
        reply = s;
        answer = inr refl;
        applied = ground (arith, e);
        own = same_ref s.source_ref expected (ground (arith, e));
      }
      | inr e ↦ elim (Bool-cases (s.rolled_back && same_source_ref s.source_ref expected)) [
        | inl r ↦ let no = rw (e, r) at h in cc
        | inr r ↦ elim (Bool-cases (not (same_source_ref s.source_ref expected))) [
          | inl m ↦ let no = rw (e, r, m) at h in cc
          | inr m ↦ let no = rw (e, r, m) at h in cc
        ]
      ]
    ]

judge-IsConfirmed :
    (expected : String) (granted queried : Result ClientError Reply)
    → judge expected granted queried ≡ completes
    → IsConfirmed expected granted queried
unfolding judge
judge-IsConfirmed expected (err payload_conflict) queried h = cc
judge-IsConfirmed expected (err ClientError.other) queried h =
    judge_query-IsConfirmed expected (err ClientError.other) queried h
judge-IsConfirmed expected (ok r) queried h =
    elim (Bool-cases (same_source_ref r.source_ref expected)) [
      | inr m ↦ let no = rw m at h in cc
      | inl m ↦ elim (Bool-cases r.applied) [
        | inl a ↦ record {
          reply = r;
          answer = inl refl;
          applied = a;
          own = same_ref r.source_ref expected m;
        }
        | inr a ↦ elim (Bool-cases r.rolled_back) [
          | inl b ↦ let no = rw (m, a, b) at h in cc
          | inr b ↦ judge_query-IsConfirmed expected (ok r) queried (rw (m, a, b) at h)
        ]
      ]
    ]

-- What a report of completion promises of the outbox row's grant.
pub record IsPaidOut (w : World) (k : Codec) (o : Outbox) (db d : Db) : Type 0 where
  grant : Grant
  payload : Payload
  loaded : (load_settlement w k o db).0 ≡ ok (grant, payload)
  confirmed :
      IsConfirmed grant.source_ref
        (w.client.grant payload o.payload_hash)
        (w.client.query grant.source_ref)
  paid : IsPaid grant.id d

not_status : (s t : String) → text_eq s t ≡ false → s ≢ t
not_status s t h e = let yes = (text_eq_iff s t).1 e in cc

module _ (cfg : Config) (describe : Reason → String) (k : Codec) (w : World) (o : Outbox) where
  abbrev Claims : (Db → Type 0) → String → Db → Type 0
  Claims P status d = status ≡ "completed" → P d

  -- A stored outcome, reported under a status that is not completed.
  other_status :
      (P : Db → Type 0) (r : Result StoreError (Unit {0}) × Db) (status : String)
      → status ≢ "completed"
      → Ensures (Claims P) (after r (λ _. done status))
  other_status P (err e, d) status n = tt
  other_status P (ok x, d) status n = λ h. elim (n h) [ ]

  fail_payload-Claims :
      (P : Db → Type 0) (r : Reason) (db : Db)
      → Ensures (Claims P) (fail_payload cfg describe k w o r db)
  unfolding fail_payload
  fail_payload-Claims P r db = other_status P _ "conflict" (not_status "conflict" "completed" refl)

  retry-Claims :
      (P : Db → Type 0) (r : Reason) (db : Db) → Ensures (Claims P) (retry cfg describe k w o r db)
  unfolding retry
  retry-Claims P r db = elim (Bool-cases (leb cfg.max_attempts o.attempts)) [
    | inl e ↦ rw e (other_status P _ "dead" (not_status "dead" "completed" refl))
    | inr e ↦ rw e (other_status P _ "retry" (not_status "retry" "completed" refl))
  ]

  enact-Claims :
      (db : Db) (g : Grant) (p : Payload) (v : Verdict) (start : Db)
      → IsBalanced db
      → (load_settlement w k o start).0 ≡ ok (g, p)
      → judge g.source_ref (w.client.grant p o.payload_hash) (w.client.query g.source_ref) ≡ v
      → Ensures (Claims (IsPaidOut w k o start)) (enact cfg describe k w o g v db)
  unfolding enact
  enact-Claims db g p completes start b l v =
      Ensures-after (λ _ d. IsPaid g.id d) (Claims (IsPaidOut w k o start)) (complete w o g db)
        (λ _. done "completed") (complete_paid w o db g b)
        (λ _ d paid h. record {
          grant = g;
          payload = p;
          loaded = l;
          confirmed =
              judge-IsConfirmed g.source_ref (w.client.grant p o.payload_hash)
                (w.client.query g.source_ref) v;
          paid = paid;
        })
  enact-Claims db g p (conflicts reason) start b l v =
      fail_payload-Claims (IsPaidOut w k o start) reason db
  enact-Claims db g p retries start b l v = retry-Claims (IsPaidOut w k o start) unconfirmed db

  process_one-Claims :
      (db : Db)
      → IsFriendly w
      → IsBalanced db
      → Ensures
          (λ status d. status ≡ "completed" → IsPaidOut w k o db d)
          (process_one cfg describe k w o db)
  unfolding process_one
  process_one-Claims db h b =
      loaded (load_settlement w k o db) refl
        (Keeps-Same db (load_settlement w k o db).1 b (load-IsAside w k o db))
    where
      loaded :
          (r : Result StoreError (Grant × Payload) × Db)
          → load_settlement w k o db ≡ r
          → Keeps db r.1
          → Ensures (Claims (IsPaidOut w k o db)) (
              either
                (λ e d. fail_payload cfg describe k w o (not_loaded e) (w.between d))
                (λ x d.
                  enact cfg describe k w o x.0
                    (judge x.0.source_ref
                      (w.client.grant x.1 o.payload_hash)
                      (w.client.query x.0.source_ref))
                    (w.between d))
                r)
      loaded (err e, d) q l = fail_payload-Claims (IsPaidOut w k o db) (not_loaded e) (w.between d)
      loaded (ok (g, p), d) q l =
          enact-Claims (w.between d) g p
            (judge g.source_ref (w.client.grant p o.payload_hash) (w.client.query g.source_ref)) db
            (h d l.balanced).balanced (ap (λ (r : Result StoreError (Grant × Payload) × Db). r.0) q)
            refl

  -- On tables whose budgets agree with their grants, `processOne` reports "completed" only if the
  -- loaded grant was confirmed as applied, under its own source reference, by an answer of the
  -- benefit service, and the grant's row is settled in the tables that are left.
  pub process_one-IsPaidOut :
      (db d : Db)
      → IsFriendly w
      → IsBalanced db
      → process_one cfg describe k w o db ≡ (ok "completed", d)
      → IsPaidOut w k o db d
  process_one-IsPaidOut db d h b q =
      Ensures-at (Claims (IsPaidOut w k o db)) q (process_one-Claims db h b) refl
