-- ===== src/Action/Stored.antt =====
-- The grant and the outbox row that `award_reward` leaves in the tables.
use meta_pulse.Prelude.{
  ℕ, ◌==◌, ◌≡◌, ◌<◌, refl, sym, ap, subst, ◌∙◌, Bool, true, false, Bool-cases, Option-cases, inl,
  inr, Option, none, some, List, [], ◌∷◌, ◌++◌, All, arith, ==_iff,
}
use meta_pulse.Prelude.Tx.{◌>>=◌, ◌>>◌, Ensures, Ensures-after, done}
use meta_pulse.Prelude.Table.{find_row}
use meta_pulse.Budget.{Budget}
use meta_pulse.Reward.{Definition}
use meta_pulse.RewardStore.{
  Grant, Outbox, Db, Call, Codec, is_grant, is_taken, is_grant_create, is_outbox_create,
  is_community_mismatch, create_grant, create_outbox, save_budget,
}
use meta_pulse.RewardAccounts.Balance.{IsBalanced}
use meta_pulse.RewardAccounts.Effects.{save_budget-Ensures}
use meta_pulse.Action.Keeps.{Inserted, create_grant-Ensures, Reserves, reserve_reward-Ensures}
use meta_pulse.Action.{
  Award, grant_of, outbox_of, reward_budget, reserve_reward, store_reward, award_reward,
}

abbrev pub is_for : ℕ → Outbox → Bool
is_for id r = r.reward_grant_id == id

find_row-new :
    {R : Type 0} (test : R → Bool) (rows : List R) (r : R)
    → find_row test rows ≡ none
    → test r ≡ true
    → find_row test (rows ++ r ∷ []) ≡ some r
unfolding find_row
find_row-new test [] r n h = rw h refl
find_row-new test (x ∷ rows) r n h = elim (Bool-cases (test x)) [
  | inl e ↦ let no = rw e at n in cc
  | inr e ↦ rw e (find_row-new test rows r (rw e at n) h)
]

find_row-below :
    (id : ℕ) (rows : List Grant) → All (λ g. g.id < id) rows → find_row (is_grant id) rows ≡ none
unfolding find_row
find_row-below id [] h = refl
find_row-below id (g ∷ rows) h =
    let other : is_grant id g ≡ false = ground (arith, h.0) in rw other (find_row-below id rows h.1)

untaken : {R : Type 0} (o : Option R) → is_taken o ≡ false → o ≡ none
untaken none h = refl
untaken (some r) h = cc

-- The outbox row as it is read back: the payload comes from a JSON column.
abbrev pub stored_row : Codec → Outbox → ℕ → Outbox
stored_row k o id = record o { id = id; payload_json = k.column o.payload_json }

-- The tables with the outbox row.
abbrev Queued : Codec → Outbox → Db → Db → Type 0
Queued k o db d =
    (find_row (is_for o.reward_grant_id) d.outboxes ≡ some (stored_row k o db.next_outbox))
    × (d.grants ≡ db.grants)
    × (o.reward_grant_id == 0 ≡ false)

named : (k : Codec) (o : Outbox) → is_outbox_create k o ≡ true → o.reward_grant_id == 0 ≡ false
unfolding is_outbox_create
named k o h = ground (arith, h)

module _ (fails : Call → Bool) (k : Codec) where
  create_outbox-Queued :
      (o : Outbox) (db : Db) → Ensures (λ _ d. Queued k o db d) (create_outbox fails k o db)
  unfolding create_outbox
  create_outbox-Queued o db = elim (Bool-cases (is_outbox_create k o)) [
    | inr e ↦ rw e tt
    | inl e ↦ elim (Bool-cases (fails Call.read_new_grant)) [
      | inl down ↦ rw (e, down) tt
      | inr up ↦ elim (Option-cases (find_row (is_grant o.reward_grant_id) db.grants)) [
        | inl n ↦ rw (e, up, n) tt
        | inr (g, f) ↦ elim (Bool-cases (is_community_mismatch g o)) [
          | inl m ↦ rw (e, up, f, m) tt
          | inr m ↦ elim (Bool-cases (fails Call.insert_outbox)) [
            | inl shut ↦ rw (e, up, f, m, shut) tt
            | inr open_ ↦
                elim (Bool-cases (is_taken (find_row (is_for o.reward_grant_id) db.outboxes))) [
                  | inl t ↦ rw (e, up, f, m, open_, t) tt
                  | inr t ↦
                      rw (e, up, f, m, open_, t)
                        (
                          find_row-new (is_for o.reward_grant_id) db.outboxes
                              (stored_row k o db.next_outbox)
                              (untaken (find_row (is_for o.reward_grant_id) db.outboxes) t)
                              ((==_iff o.reward_grant_id o.reward_grant_id).1 refl),
                          refl,
                          named k o e,
                        )
                ]
          ]
        ]
      ]
    ]
  ]

-- The grant and the outbox row of an award in the tables.
pub record IsStored (k : Codec) (a : Award) (db : Db) (g : Grant) (d : Db) : Type 0 where
  pub is_row : g ≡ record (grant_of a) { id = db.next_grant }
  pub valid : is_grant_create (grant_of a) ≡ true
  pub named : g.id == 0 ≡ false
  pub granted : find_row (is_grant g.id) d.grants ≡ some g
  pub queued :
      find_row (is_for g.id) d.outboxes ≡ some (stored_row k (outbox_of k a g) db.next_outbox)

module _ (fails : Call → Bool) (k : Codec) (a : Award) (db : Db) (balanced : IsBalanced db) where
  saved-IsStored :
      (b : Budget) (g : Grant) (d e : Db)
      → Inserted fails db (grant_of a) g d
      → Queued k (outbox_of k a g) d e
      → Ensures (IsStored k a db) ((save_budget fails b >> done g) e)
  saved-IsStored b g d e (valid, is_row, same) (queued, kept, named_) =
      Ensures-after _ (IsStored k a db) (save_budget fails b e) (λ _. done g)
        (save_budget-Ensures fails b e)
        (λ _ d' (budgets, _, written).
          let grants : d'.grants ≡ db.grants ++ g ∷ [] =
            ap (λ (x : Db). x.grants) written ∙ kept ∙ ap (λ (x : Db). x.grants) same in
          record {
            is_row = is_row;
            valid = valid;
            named = named_;
            granted =
                ap (find_row (is_grant g.id)) grants
                ∙ find_row-new (is_grant g.id) db.grants g
                    (subst (λ id. find_row (is_grant id) db.grants ≡ none)
                      (sym (ap (λ (x : Grant). x.id) is_row))
                      (find_row-below db.next_grant db.grants balanced.below))
                    ((==_iff g.id g.id).1 refl);
            queued =
                ap (λ (x : Db). find_row (is_for g.id) x.outboxes) written
                ∙ queued
                ∙ ap (λ (x : Db). some (stored_row k (outbox_of k a g) x.next_outbox)) same;
          })

  store_reward-IsStored : (b : Budget) → Ensures (IsStored k a db) (store_reward fails k a b db)
  unfolding store_reward
  store_reward-IsStored b =
      Ensures-after (Inserted fails db (grant_of a)) (IsStored k a db)
        (create_grant fails (grant_of a) db)
        (λ g. create_outbox fails k (outbox_of k a g) >>= (λ _. save_budget fails b >> done g))
        (create_grant-Ensures fails (grant_of a) db)
        (λ g d i.
          Ensures-after (λ _ e. Queued k (outbox_of k a g) d e) (IsStored k a db)
            (create_outbox fails k (outbox_of k a g) d) (λ _. save_budget fails b >> done g)
            (create_outbox-Queued fails k (outbox_of k a g) d)
            (λ _ e q. saved-IsStored b g d e i q))

  pub award_reward-IsStored :
      (ds : List Definition) → Ensures (IsStored k a db) (award_reward fails k a ds db)
  unfolding award_reward
  award_reward-IsStored ds =
      Ensures-after
        (Reserves db a.period_id (reward_budget a.definition.reward_type) a.definition.amount)
        (IsStored k a db) (reserve_reward fails a ds db) (store_reward fails k a)
        (reserve_reward-Ensures fails a ds db)
        (λ b d (same, _, _, _).
          subst (λ x. Ensures (IsStored k a db) (store_reward fails k a b x)) (sym same)
            (store_reward-IsStored b))
