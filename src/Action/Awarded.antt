-- ===== src/Action/Awarded.antt =====
-- The reward part of an action, whole: `award_reward` keeps the accounts.
use meta_pulse.Prelude.{
  ◌+◌, ◌≡◌, refl, sym, ap, subst, ◌∙◌, Bool, true, List, [], ◌∷◌, ◌++◌, some, arith,
}
use meta_pulse.Prelude.Int.{pos, ◌<ℤ◌}
use meta_pulse.Prelude.Word.{IsInt64}
use meta_pulse.Prelude.Result.{Result, ok, err}
use meta_pulse.Prelude.Tx.{◌>>=◌, ◌>>◌, Ensures, Ensures-after, done}
use meta_pulse.Prelude.Table.{find_row, find_row-In, update_row, update_row-Moved}
use meta_pulse.Budget.{Budget}
use meta_pulse.Budget.Moves.{Kept, reserved_by, reserve_budget-ok}
use meta_pulse.Reward.{Definition}
use meta_pulse.RewardStore.{
  Grant, Db, Tx, Call, StoreError, Codec, is_pool, is_version, with_amounts, is_grant_create,
  create_grant, create_outbox, save_budget,
}
use meta_pulse.RewardAccounts.Balance.{IsBalanced, budget_id}
use meta_pulse.RewardAccounts.Effects.{save_budget-Ensures}
use meta_pulse.RewardAccounts.Keeps.{Same, Keeps, Keeps-trans, Keeps-Same}
use meta_pulse.Action.Keeps.{
  granted-Keeps, Reserves, reserve_reward-Ensures, Inserted, create_grant-Ensures,
  create_outbox-IsAside,
}
use meta_pulse.Action.{
  Award, grant_of, reward_budget, outbox_of, reserve_reward, store_reward, award_reward,
}

positive : (g : Grant) → is_grant_create g ≡ true → pos 0 <ℤ g.amount
unfolding is_grant_create
positive g h = ground (arith, h)

-- What a transaction that leaves the accounts alone ensures.
aside-Ensures :
    {T : Type 0} (db : Db) (r : Result StoreError T × Db)
    → Same db r.1
    → Ensures (λ _ d. Same db d) r
aside-Ensures db (err e, d) s = tt
aside-Ensures db (ok x, d) s = s

module _ (fails : Call → Bool) (k : Codec) (a : Award) (db : Db) (b : Budget)
    (balanced : IsBalanced db) (in_range : IsInt64 a.definition.amount)
    (found : find_row (is_pool a.period_id (reward_budget a.definition.reward_type)) db.budgets
      ≡ some b) where
  abbrev row : Grant
  row = record (grant_of a) { id = db.next_grant }

  abbrev drawn : Budget
  drawn = reserved_by a.definition.amount b

  -- The tables with the grant, and then with its outbox row.
  abbrev granted : Db
  granted = record db { grants = db.grants ++ row ∷ []; next_grant = db.next_grant + 1 }

  saved-Keeps :
      (d : Db) (budgets : List Budget)
      → is_grant_create (grant_of a) ≡ true
      → Kept drawn
      → Same granted d
      → update_row (is_version drawn) (with_amounts drawn) d.budgets ≡ some budgets
      → Keeps db (record d { budgets = budgets })
  saved-Keeps d budgets e kept s u =
      let written : update_row (is_version drawn) (with_amounts drawn) db.budgets ≡ some budgets =
        ap (update_row (is_version drawn) (with_amounts drawn)) (sym s.budgets) ∙ u in
      let moved =
        (update_row-Moved budget_id (is_version drawn) (with_amounts drawn) db.budgets b
          balanced.budget_ids
          (find_row-In (is_pool a.period_id (reward_budget a.definition.reward_type)) db.budgets
            found)
          (λ x h. ground (arith, h)) written).1 in
      let both : Db = record db {
        budgets = budgets;
        grants = db.grants ++ row ∷ [];
        next_grant = db.next_grant + 1;
      } in
      let keeps : Keeps db both =
        granted-Keeps db b row budgets balanced found refl refl (in_range, positive (grant_of a) e)
          kept moved in
      let same : Same both (record d { budgets = budgets }) = record {
        budgets = refl;
        grants = s.grants;
        next_grant = s.next_grant;
      } in
      Keeps-trans db both (record d { budgets = budgets }) keeps
        (Keeps-Same both (record d { budgets = budgets }) keeps.balanced same)

  abbrev saving : Grant → Tx Grant
  saving g = save_budget fails drawn >> done g

  saving-Ensures :
      (d : Db)
      → is_grant_create (grant_of a) ≡ true
      → Kept drawn
      → Same granted d
      → Ensures (λ _ d'. Keeps db d') (saving row d)
  saving-Ensures d e kept s =
      Ensures-after _ _ (save_budget fails drawn d) (λ _. done row)
        (save_budget-Ensures fails drawn d)
        (λ _ d' (budgets, u, same).
          subst (λ x. Keeps db x) (sym same) (saved-Keeps d budgets e kept s u))

  store_reward-Ensures : Kept drawn → Ensures (λ _ d. Keeps db d) (store_reward fails k a drawn db)
  unfolding store_reward
  store_reward-Ensures kept =
      Ensures-after (Inserted fails db (grant_of a)) _ (create_grant fails (grant_of a) db)
        (λ g. create_outbox fails k (outbox_of k a g) >>= (λ _. saving g))
        (create_grant-Ensures fails (grant_of a) db)
        (λ g d (e, is_row, same).
          subst
            (λ x.
              Ensures (λ _ d'. Keeps db d')
                ((create_outbox fails k (outbox_of k a x) >>= (λ _. saving x)) d))
            (sym is_row)
            (subst
              (λ x.
                Ensures (λ _ d'. Keeps db d')
                  ((create_outbox fails k (outbox_of k a row) >>= (λ _. saving row)) x))
              (sym (
                same
                ∙ ap
                    (λ (x : Grant). record db {
                      grants = db.grants ++ x ∷ [];
                      next_grant = db.next_grant + 1;
                    })
                    is_row))
              (outboxed e)))
    where
      outboxed :
          is_grant_create (grant_of a) ≡ true
          → Ensures
              (λ _ d'. Keeps db d')
              ((create_outbox fails k (outbox_of k a row) >>= (λ _. saving row)) granted)
      outboxed e =
          Ensures-after (λ _ d. Same granted d) _
            (create_outbox fails k (outbox_of k a row) granted) (λ _. saving row)
            (aside-Ensures granted (create_outbox fails k (outbox_of k a row) granted)
              (create_outbox-IsAside fails k (outbox_of k a row) granted))
            (λ _ d s. saving-Ensures d e kept s)

pub award_reward-Ensures :
    (fails : Call → Bool) (k : Codec) (a : Award) (ds : List Definition) (db : Db)
    → IsBalanced db
    → IsInt64 a.definition.amount
    → Ensures (λ _ d. Keeps db d) (award_reward fails k a ds db)
unfolding award_reward
award_reward-Ensures fails k a ds db balanced in_range =
    Ensures-after
      (Reserves db a.period_id (reward_budget a.definition.reward_type) a.definition.amount) _
      (reserve_reward fails a ds db) (store_reward fails k a) (reserve_reward-Ensures fails a ds db)
      (λ c d (same, b, f, q).
        let (is_c, kept, _, _) =
          reserve_budget-ok b c a.definition.amount
            (balanced.pools a.period_id (reward_budget a.definition.reward_type) b f).0.in_range
            q in
        subst (λ x. Ensures (λ _ d'. Keeps db d') (store_reward fails k a c x)) (sym same)
          (subst (λ x. Ensures (λ _ d'. Keeps db d') (store_reward fails k a x db)) (sym is_c)
            (store_reward-Ensures fails k a db b balanced in_range f (subst Kept is_c kept))))
