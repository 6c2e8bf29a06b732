-- ===== src/Action/Keeps.antt =====
-- The reward part of an action keeps the accounts: the grant is pending, and its amount reserved.
use meta_pulse.Prelude.{
  ℕ, ◌+◌, ◌==◌, ◌≡◌, ◌<◌, refl, sym, ap, subst, ◌∙◌, Bool, true, false, ◌&&◌, ◌||◌, not, Bool-cases,
  inl, inr, Option, none, some, String, List, [], ◌∷◌, ◌++◌, All, arith, if◌then◌else◌,
}
use meta_pulse.Prelude.Int.{ℤ, pos, pos_part, neg_part, ◌+ℤ◌, eqb_ℤ, int_laws}
use meta_pulse.Prelude.Text.{text_eq}
use meta_pulse.Prelude.Result.{Result, ok, err}
use meta_pulse.Prelude.Tx.{◌>>=◌, ◌>>◌, Ensures, Ensures-after, after, done, refuse_if}
use meta_pulse.Prelude.Table.{
  find_row, find_row-append, All-snoc, All-map, Unique-snoc, Moved, total-append,
}
use meta_pulse.Budget.{Budget, BudgetError, budget_exceeded, can_reserve, reserve_budget}
use meta_pulse.Budget.Moves.{Kept, reserved_by}
use meta_pulse.Reward.{Definition}
use meta_pulse.RewardStore.{
  Grant, Outbox, Db, Tx, Call, StoreError, budget, conflict, Codec, is_pool, is_grant, is_taken,
  with_amounts, is_grant_create, is_outbox_create, is_community_mismatch, found, guarded,
  create_grant, create_outbox, get_budget_for_update,
}
use meta_pulse.Settlement.Service.{budget_step}
use meta_pulse.RewardAccounts.Balance.{
  IsBalanced, IsAmount, Tied, draws, weight, sum_of, grant_id, budget_id,
}
use meta_pulse.RewardAccounts.Settled.{moved_pools, rows_kept}
use meta_pulse.RewardAccounts.Effects.{get_budget-Ensures}
use meta_pulse.RewardAccounts.Keeps.{Keeps, Advanced-refl}
use meta_pulse.RewardAccounts.Steps.{Same-refl}
use meta_pulse.RewardAccounts.Careful.{
  IsAside, checked-IsAside, bind-IsAside, guarded-IsAside, found-IsAside,
}
use meta_pulse.Action.{
  Award, reward_budget, max_prize, as_exceeded, lock_pool, reserved_from, reserve_reward,
}

sum-snoc :
    (s : String) (p : ℕ) (t : String) (gs : List Grant) (g : Grant) (x : ℤ)
    → weight s p t g ≡ x
    → sum_of s p t (gs ++ g ∷ []) ≡ sum_of s p t gs +ℤ x
sum-snoc s p t gs g x h = total-append (weight s p t) gs g ∙ ap (λ y. sum_of s p t gs +ℤ y) h

Tied-granted :
    (p : ℕ) (t : String) (gs : List Grant) (g : Grant) (b : Budget)
    → g.status ≡ "pending"
    → draws p t g ≡ true
    → Tied p t gs b
    → Tied p t (gs ++ g ∷ []) (reserved_by g.amount b)
Tied-granted p t gs g b s h l =
    let pending = sum-snoc "pending" p t gs g g.amount (rw (h, s) refl) in
    let settled = sum-snoc "settled" p t gs g (pos 0) (rw (h, s) refl) in
    let reversed = sum-snoc "reversed" p t gs g (pos 0) (rw (h, s) refl) in
    record {
      reserved = rw l.reserved (sym pending);
      settled = rw l.settled (omega (int_laws, ap pos_part settled, ap neg_part settled));
      released = rw l.released (omega (int_laws, ap pos_part reversed, ap neg_part reversed));
    }

Tied-beside :
    (p : ℕ) (t : String) (gs : List Grant) (g : Grant) (b : Budget)
    → draws p t g ≡ false
    → Tied p t gs b
    → Tied p t (gs ++ g ∷ []) b
Tied-beside p t gs g b h l = record {
  reserved = l.reserved ∙ same "pending";
  settled = l.settled ∙ same "settled";
  released = l.released ∙ same "reversed";
}
  where
    same : (s : String) → sum_of s p t gs ≡ sum_of s p t (gs ++ g ∷ [])
    same s =
        let q = sum-snoc s p t gs g (pos 0) (rw h refl) in
        omega (int_laws, ap pos_part q, ap neg_part q)

-- A new pending grant, with its amount reserved.
pub granted-Keeps :
    (db : Db) (b : Budget) (g : Grant) (budgets : List Budget)
    → IsBalanced db
    → find_row (is_pool g.period_id g.budget_type) db.budgets ≡ some b
    → g.id ≡ db.next_grant
    → g.status ≡ "pending"
    → IsAmount g
    → Kept (reserved_by g.amount b)
    → Moved budget_id (with_amounts (reserved_by g.amount b)) db.budgets budgets b
    → Keeps db (record db {
      budgets = budgets;
      grants = db.grants ++ g ∷ [];
      next_grant = db.next_grant + 1;
    })
granted-Keeps db b g budgets o f i s a k m = record {
  balanced = record {
    grant_ids =
        Unique-snoc grant_id db.grants g o.grant_ids
          (subst (λ n. All (λ x. x.id < n) db.grants) (sym i) o.below);
    below =
        All-snoc (λ x. x.id < db.next_grant + 1) db.grants g
          (All-map (λ x. x.id < db.next_grant) (λ x. x.id < db.next_grant + 1) db.grants
            (λ x h. omega (arith, h)) o.below)
          (omega (arith, i));
    amounts = All-snoc IsAmount db.grants g o.amounts a;
    budget_ids =
        rows_kept budget_id (with_amounts (reserved_by g.amount b)) db.budgets budgets b m refl
          o.budget_ids;
    pools =
        moved_pools db b (reserved_by g.amount b) g budgets (db.grants ++ g ∷ []) o f m refl k
          (λ p t h l. Tied-granted p t db.grants g b s h l)
          (λ p t x h l. Tied-beside p t db.grants g x h l);
  };
  rows = λ id x q. (x, find_row-append (is_grant id) db.grants g x q, Advanced-refl x);
}

pub as_exceeded-Ensures :
    (P : Budget → Db → Type 0) (r : Result StoreError Budget × Db)
    → Ensures P r
    → Ensures P (as_exceeded r)
as_exceeded-Ensures P (err StoreError.not_found, db) h = tt
as_exceeded-Ensures P (err _, db) h = tt
as_exceeded-Ensures P (ok b, db) h = h

-- The budget that a reservation starts from, and the one it asks for.
abbrev pub Reserves : Db → ℕ → String → ℤ → Budget → Db → Type 0
Reserves db period kind amount c d =
    (d ≡ db)
    × (b : Budget) × (find_row (is_pool period kind) db.budgets ≡ some b)
    × (reserve_budget b amount ≡ ok c)

abbrev Locks : Db → ℕ → String → Option Budget → Db → Type 0
Locks db period kind o d =
    (d ≡ db) × ((b : Budget) → o ≡ some b → find_row (is_pool period kind) db.budgets ≡ some b)

module _ (fails : Call → Bool) where
  lock_pool-Ensures :
      (period : ℕ) (kind : String) (ds : List Definition) (db : Db)
      → Ensures (Locks db period kind) (lock_pool fails period kind ds db)
  unfolding lock_pool
  lock_pool-Ensures period kind ds db = elim (Bool-cases (eqb_ℤ (max_prize kind ds) (pos 0))) [
    | inl e ↦ rw e (refl, λ b h. cc)
    | inr e ↦ rw e (
        Ensures-after (λ b d. (find_row (is_pool period kind) db.budgets ≡ some b) × (d ≡ db))
          (Locks db period kind) (as_exceeded (get_budget_for_update fails period kind db)) _
          (as_exceeded-Ensures _ (get_budget_for_update fails period kind db)
            (get_budget-Ensures fails period kind db))
          (λ b d (f, same). covered b d f same))
  ]
    where
      covered :
          (b : Budget) (d : Db)
          → find_row (is_pool period kind) db.budgets ≡ some b
          → d ≡ db
          → Ensures (Locks db period kind) (
              after
                (refuse_if (not (can_reserve b (max_prize kind ds))) (budget budget_exceeded) d)
                (λ _. done (some b)))
      covered b d f same = elim (Bool-cases (can_reserve b (max_prize kind ds))) [
        | inr n ↦ rw n tt
        | inl n ↦ rw n (same, λ x h. f ∙ h)
      ]

  reserved-Ensures :
      (db : Db) (period : ℕ) (kind : String) (amount : ℤ) (o : Option Budget) (d : Db)
      → Locks db period kind o d
      → Ensures (Reserves db period kind amount) (reserved_from fails o amount d)
  reserved-Ensures db period kind amount none d h = tt
  reserved-Ensures db period kind amount (some b) d h = go (reserve_budget b amount) refl
    where
      go :
          (r : Result BudgetError Budget)
          → reserve_budget b amount ≡ r
          → Ensures (Reserves db period kind amount) (budget_step r d)
      go (err e) q = tt
      go (ok c) q = (h.0, b, h.1 b refl, q)

  pub reserve_reward-Ensures :
      (a : Award) (ds : List Definition) (db : Db)
      → Ensures
          (Reserves db a.period_id (reward_budget a.definition.reward_type) a.definition.amount)
          (reserve_reward fails a ds db)
  unfolding reserve_reward
  reserve_reward-Ensures a ds db =
      Ensures-after (Locks db a.period_id "loyalty") _ (lock_pool fails a.period_id "loyalty" ds db)
        _ (lock_pool-Ensures a.period_id "loyalty" ds db) (λ loyalty d l. second loyalty d l)
    where
      chosen :
          (loyalty experience : Option Budget) (d : Db)
          → Locks db a.period_id "loyalty" loyalty db
          → Locks db a.period_id "community_exp" experience d
          → Ensures
              (Reserves db a.period_id (reward_budget a.definition.reward_type) a.definition.amount)
              (reserved_from fails
                (if text_eq (reward_budget a.definition.reward_type) "community_exp"
                  then experience
                  else loyalty)
                a.definition.amount
                d)
      chosen loyalty experience d l m =
          elim (Bool-cases (text_eq a.definition.reward_type "community_exp")) [
            | inl e ↦
                rw e (
                  reserved-Ensures db a.period_id "community_exp" a.definition.amount experience d
                    m)
            | inr e ↦
                rw e (
                  reserved-Ensures db a.period_id "loyalty" a.definition.amount loyalty d
                    (m.0, l.1))
          ]

      second :
          (loyalty : Option Budget) (d : Db)
          → Locks db a.period_id "loyalty" loyalty d
          → Ensures
              (Reserves db a.period_id (reward_budget a.definition.reward_type) a.definition.amount)
              (after (lock_pool fails a.period_id "community_exp" ds d) (λ experience.
                reserved_from fails
                  (if text_eq (reward_budget a.definition.reward_type) "community_exp"
                    then experience
                    else loyalty)
                  a.definition.amount))
      second loyalty d l = rw l.0 (
          Ensures-after (Locks db a.period_id "community_exp") _
            (lock_pool fails a.period_id "community_exp" ds db) _
            (lock_pool-Ensures a.period_id "community_exp" ds db)
            (λ experience d' m. chosen loyalty experience d' (refl, l.1) m))

  -- The row that `CreateGrant` adds.
  abbrev pub Inserted : Db → Grant → Grant → Db → Type 0
  Inserted db g row d =
      (is_grant_create g ≡ true)
      × (row ≡ record g { id = db.next_grant })
      × (d ≡ record db { grants = db.grants ++ row ∷ []; next_grant = db.next_grant + 1 })

  pub create_grant-Ensures :
      (g : Grant) (db : Db) → Ensures (Inserted db g) (create_grant fails g db)
  unfolding create_grant
  create_grant-Ensures g db = elim (Bool-cases (is_grant_create g)) [
    | inr e ↦ rw e tt
    | inl e ↦ elim (Bool-cases (fails Call.insert_grant)) [
      | inl down ↦ rw (e, down) tt
      | inr up ↦
          let taken = is_taken (
            find_row
              (λ r.
                text_eq r.grant_id g.grant_id
                || text_eq r.source_ref g.source_ref
                || (r.period_id == g.period_id
                    && r.user_id == g.user_id
                    && text_eq r.action_id g.action_id))
              db.grants) in
          elim (Bool-cases taken) [
            | inl t ↦ rw (e, up, t) tt
            | inr t ↦ rw (e, up, t) (e, refl, refl)
          ]
    ]
  ]

  -- The end of `CreateOutbox`.
  abbrev inserting : Codec → Outbox → Tx Outbox
  inserting k o db =
      let created = record o { id = db.next_outbox } in
      let row = record created { payload_json = k.column o.payload_json } in
      if is_taken (find_row (λ r. r.reward_grant_id == o.reward_grant_id) db.outboxes)
      then (err conflict, db)
      else (
        ok created,
        record db { outboxes = db.outboxes ++ row ∷ []; next_outbox = db.next_outbox + 1 },
      )

  inserting-IsAside : (k : Codec) (o : Outbox) → IsAside (inserting k o)
  inserting-IsAside k o db =
      elim (Bool-cases
        (is_taken (find_row (λ r. r.reward_grant_id == o.reward_grant_id) db.outboxes))) [
          | inl t ↦ rw t (Same-refl db)
          | inr t ↦ rw t (record { budgets = refl; grants = refl; next_grant = refl })
        ]

  abbrev inserting_for : Codec → Outbox → Grant → Tx Outbox
  inserting_for k o g = do
    refuse_if (is_community_mismatch g o) conflict
    guarded fails Call.insert_outbox (inserting k o)

  inserting_for-IsAside : (k : Codec) (o : Outbox) (g : Grant) → IsAside (inserting_for k o g)
  inserting_for-IsAside k o g =
      checked-IsAside (is_community_mismatch g o) conflict
        (guarded fails Call.insert_outbox (inserting k o))
        (guarded-IsAside fails Call.insert_outbox (inserting k o) (inserting-IsAside k o))

  abbrev reading : Outbox → Tx Grant
  reading o =
      guarded fails Call.read_new_grant
        (λ db. found (find_row (is_grant o.reward_grant_id) db.grants) db)

  pub create_outbox-IsAside : (k : Codec) (o : Outbox) → IsAside (create_outbox fails k o)
  unfolding create_outbox
  create_outbox-IsAside k o =
      checked-IsAside (not (is_outbox_create k o)) conflict (reading o >>= inserting_for k o) (
        bind-IsAside (reading o) (inserting_for k o)
          (guarded-IsAside fails Call.read_new_grant
            (λ db. found (find_row (is_grant o.reward_grant_id) db.grants) db)
            (λ db. found-IsAside (find_row (is_grant o.reward_grant_id) db.grants) db))
          (inserting_for-IsAside k o))
