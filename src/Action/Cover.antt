-- ===== src/Action/Cover.antt =====
-- The locks on the budgets: a reward is granted only where every enabled prize could have been.
use meta_pulse.Prelude.{
  ◌≡◌, refl, sym, subst, ℕ, Bool, true, ◌&&◌, not, Bool-cases, inl, inr, some, String, List, [],
  ◌∷◌, In, arith, if◌then◌else◌,
}
use meta_pulse.Prelude.Int.{ℤ, pos, ◌≤ℤ◌, ◌<ℤ◌, ltb_ℤ, eqb_ℤ}
use meta_pulse.Prelude.Text.{text_eq}
use meta_pulse.Prelude.Result.{Result, ok, err}
use meta_pulse.Prelude.Tx.{Ensures, Ensures-after, Ensures-at, after, refuse_if, done}
use meta_pulse.Prelude.Table.{In-split, find_row}
use meta_pulse.Budget.{Budget, budget_exceeded, can_reserve}
use meta_pulse.Reward.{Definition}
use meta_pulse.RewardStore.{
  Grant, Db, Call, StoreError, budget, Codec, is_pool, get_budget_for_update,
}
use meta_pulse.RewardAccounts.Effects.{get_budget-Ensures}
use meta_pulse.Action.Keeps.{as_exceeded-Ensures}
use meta_pulse.Action.{
  Award, reward_budget, max_prize, max_prize_from, as_exceeded, lock_pool, reserve_reward,
  reserved_from, store_reward, award_reward,
}

abbrev counts : String → Definition → Bool
counts kind d = d.enabled && text_eq (reward_budget d.reward_type) kind

max_prize_from_above :
    (top : ℤ) (kind : String) (ds : List Definition) → top ≤ℤ max_prize_from top kind ds
unfolding max_prize_from
max_prize_from_above top kind [] = omega arith
max_prize_from_above top kind (d ∷ ds) = elim (Bool-cases (counts kind d && ltb_ℤ top d.amount)) [
  | inl e ↦ let above = max_prize_from_above d.amount kind ds in rw e (ground (arith, above, e))
  | inr e ↦ rw e (max_prize_from_above top kind ds)
]

-- The largest prize is as large as each that counts.
max_prize_from_covers :
    (top : ℤ) (kind : String) (ds : List Definition) (x : Definition)
    → In x ds
    → counts kind x ≡ true
    → x.amount ≤ℤ max_prize_from top kind ds
unfolding max_prize_from
max_prize_from_covers top kind [] x m c = elim m [ ]
max_prize_from_covers top kind (d ∷ ds) x m c = elim (In-split x d ds m) [
  | inl is_d ↦
      subst (λ y. y.amount ≤ℤ max_prize_from top kind (d ∷ ds)) (sym is_d)
        (first (subst (λ y. counts kind y ≡ true) is_d c))
  | inr n ↦ elim (Bool-cases (counts kind d && ltb_ℤ top d.amount)) [
    | inl e ↦ rw e (max_prize_from_covers d.amount kind ds x n c)
    | inr e ↦ rw e (max_prize_from_covers top kind ds x n c)
  ]
]
  where
    first : counts kind d ≡ true → d.amount ≤ℤ max_prize_from top kind (d ∷ ds)
    first h = elim (Bool-cases (ltb_ℤ top d.amount)) [
      | inl e ↦ rw (h, e) (max_prize_from_above d.amount kind ds)
      | inr e ↦ let above = max_prize_from_above top kind ds in rw (h, e) (ground (arith, above, e))
    ]

can_reserve_less :
    (b : Budget) (most amount : ℤ)
    → can_reserve b most ≡ true
    → pos 0 ≤ℤ amount
    → amount ≤ℤ most
    → can_reserve b amount ≡ true
unfolding can_reserve
can_reserve_less b most amount h n l = ground (arith, h, n, l)

-- A budget of the period can still pay the amount.
abbrev pub Covers : Db → ℕ → String → ℤ → Type 0
Covers db period kind amount =
    (b : Budget) × (find_row (is_pool period kind) db.budgets ≡ some b)
    × (can_reserve b amount ≡ true)

abbrev CoversAll : Db → ℕ → String → List Definition → Db → Type 0
CoversAll db period kind ds d =
    (d ≡ db)
    × ((x : Definition)
        → In x ds
        → counts kind x ≡ true
        → pos 0 <ℤ x.amount
        → Covers db period kind x.amount)

module _ (fails : Call → Bool) (period : ℕ) (ds : List Definition) (db : Db) where
  lock_pool-CoversAll :
      (kind : String)
      → Ensures (λ _ d. CoversAll db period kind ds d) (lock_pool fails period kind ds db)
  unfolding lock_pool
  lock_pool-CoversAll kind = elim (Bool-cases (eqb_ℤ (max_prize kind ds) (pos 0))) [
    | inl e ↦ rw e (
      refl,
      λ x m c p.
          let below = max_prize_from_covers (pos 0) kind ds x m c in
          let no : ◌≡◌ {A = ℕ} 0 1 = ground (arith, e, below, p) in cc,
    )
    | inr e ↦ rw e (
        Ensures-after (λ b d. (find_row (is_pool period kind) db.budgets ≡ some b) × (d ≡ db))
          (λ _ d. CoversAll db period kind ds d)
          (as_exceeded (get_budget_for_update fails period kind db)) _
          (as_exceeded-Ensures _ (get_budget_for_update fails period kind db)
            (get_budget-Ensures fails period kind db))
          (λ b d (f, same). covered b d f same))
  ]
    where
      covered :
          (b : Budget) (d : Db)
          → find_row (is_pool period kind) db.budgets ≡ some b
          → d ≡ db
          → Ensures
              (λ _ d'. CoversAll db period kind ds d')
              (after
                (refuse_if (not (can_reserve b (max_prize kind ds))) (budget budget_exceeded) d)
                (λ _. done (some b)))
      covered b d f same = elim (Bool-cases (can_reserve b (max_prize kind ds))) [
        | inr n ↦ rw n tt
        | inl n ↦ rw n (
          same,
          λ x m c p. (
            b,
            f,
            can_reserve_less b (max_prize kind ds) x.amount n (omega (arith, p))
                (max_prize_from_covers (pos 0) kind ds x m c),
          ),
        )
      ]

always :
    {T : Type 0} (P : Db → Type 0)
    → ((y : Db) → P y)
    → (r : Result StoreError T × Db) → Ensures (λ _ y. P y) r
always P h (err e, y) = tt
always P h (ok v, y) = h y

-- Both kinds of budget cover every enabled prize that draws on them.
abbrev CoversBoth : Db → ℕ → List Definition → Db → Type 0
CoversBoth db period ds _ =
    (d : Db) × CoversAll db period "loyalty" ds d × CoversAll db period "community_exp" ds d

module _ (fails : Call → Bool) (a : Award) (ds : List Definition) (db : Db) where
  reserve_reward-CoversBoth :
      Ensures (λ _ d. CoversBoth db a.period_id ds d) (reserve_reward fails a ds db)
  unfolding reserve_reward
  reserve_reward-CoversBoth =
      Ensures-after (λ _ d. CoversAll db a.period_id "loyalty" ds d) _
        (lock_pool fails a.period_id "loyalty" ds db) _
        (lock_pool-CoversAll fails a.period_id ds db "loyalty")
        (λ loyalty d l. rw l.0 (
          Ensures-after (λ _ x. CoversAll db a.period_id "community_exp" ds x) _
            (lock_pool fails a.period_id "community_exp" ds db) _
            (lock_pool-CoversAll fails a.period_id ds db "community_exp")
            (λ experience x m.
              always _ (λ y. (db, (refl, l.1), (refl, m.1)))
                (reserved_from fails
                  (if text_eq (reward_budget a.definition.reward_type) "community_exp"
                    then experience
                    else loyalty)
                  a.definition.amount x))))

  award_reward-CoversBoth :
      (k : Codec) → Ensures (λ _ d. CoversBoth db a.period_id ds d) (award_reward fails k a ds db)
  unfolding award_reward
  award_reward-CoversBoth k =
      Ensures-after (λ _ d. CoversBoth db a.period_id ds d) _ (reserve_reward fails a ds db)
        (store_reward fails k a) reserve_reward-CoversBoth
        (λ b d c. always _ (λ y. c) (store_reward fails k a b d))

-- An action is granted a reward only if, in the tables it started from, the budget of each enabled
-- prize of a positive amount could still pay that prize, whichever prize was drawn.
pub award_reward-Covers :
    (fails : Call → Bool) (k : Codec) (a : Award) (ds : List Definition) (db d : Db) (g : Grant)
    (x : Definition)
    → award_reward fails k a ds db ≡ (ok g, d)
    → In x ds
    → x.enabled ≡ true
    → pos 0 <ℤ x.amount
    → Covers db a.period_id (reward_budget x.reward_type) x.amount
award_reward-Covers fails k a ds db d g x q m on p =
    let (_, loyalty, experience) =
      Ensures-at (λ _ d. CoversBoth db a.period_id ds d) q
        (award_reward-CoversBoth fails a ds db k) in
    elim (Bool-cases (text_eq x.reward_type "community_exp")) [
      | inl e ↦ rw e (experience.1 x m (rw (on, e) refl) p)
      | inr e ↦ rw e (loyalty.1 x m (rw (on, e) refl) p)
    ]
