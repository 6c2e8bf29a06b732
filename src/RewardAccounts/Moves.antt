-- ===== src/RewardAccounts/Moves.antt =====
-- `complete` and the last transaction of `Rollback` keep the accounting balanced.
use meta_pulse.Prelude.{
  ℕ, ◌≡◌, ◌⊎◌, refl, sym, subst, Bool, true, false, Bool-cases, inl, inr, some, String, List,
  All-In, arith,
}
use meta_pulse.Prelude.Int.{pos, ◌≤ℤ◌}
use meta_pulse.Prelude.Text.{text_eq, text_eq_iff}
use meta_pulse.Prelude.Result.{Result, ok, err}
use meta_pulse.Prelude.Tx.{Ensures, Ensures-after, Ensures-weaken, after}
use meta_pulse.Prelude.Table.{find_row, find_row-In, Moved, update_row, update_row-Moved}
use meta_pulse.Budget.{Budget, BudgetError, settle_budget, release_budget}
use meta_pulse.Budget.Moves.{Kept, settled_by, released_by, settle_budget-ok, release_budget-ok}
use meta_pulse.RewardStore.{
  Grant, Db, Call, StoreError, is_pool, is_grant, is_version, with_amounts, is_from,
  get_budget_for_update, save_budget, transition_grant,
}
use meta_pulse.RewardAccounts.Balance.{
  IsBalanced, IsAmount, Tied, Tied-settled, Tied-released, draws, grant_id, budget_id,
}
use meta_pulse.RewardAccounts.Settled.{IsMark, moved-IsBalanced}
use meta_pulse.RewardAccounts.Effects.{
  get_budget-Ensures, save_budget-Ensures, settle-Ensures, reverse-Ensures, settled_at, reversed_at,
}
use meta_pulse.Settlement.Service.{World, budget_step, settle_grant}
use meta_pulse.Settlement.Passes.{reverse_grant}

-- A status is the same or a later one.
abbrev pub Forward : String → String → Type 0
Forward a b =
    (a ≡ b)
    ⊎ ((a ≡ "pending") × ((b ≡ "settled") ⊎ (b ≡ "reversed")))
    ⊎ ((a ≡ "settled") × (b ≡ "reversed"))

pub record Advanced (g h : Grant) : Type 0 where
  pub id : h.id ≡ g.id
  pub amount : h.amount ≡ g.amount
  pub period : h.period_id ≡ g.period_id
  pub kind : h.budget_type ≡ g.budget_type
  pub forward : Forward g.status h.status

-- The tables after the grant and its budget moved: balanced, and the other tables untouched.
pub record Moves (change : Grant → Grant) (g : Grant) (before d : Db) : Type 0 where
  pub balanced : IsBalanced d
  pub row : Moved grant_id change before.grants d.grants g
  pub advanced : Advanced g (change g)

version_id : (b c : Budget) → c.id ≡ b.id → (x : Budget) → is_version c x ≡ true → x.id ≡ b.id
version_id b c e x h = ground (arith, e, h)

from_id : (id : ℕ) (from : String) (e : Bool) (x : Grant) → is_from id from e x ≡ true → x.id ≡ id
from_id id from e x h = ground (arith, h)

module _ (fails : Call → Bool) (db : Db) (b : Budget) (g : Grant) (balanced : IsBalanced db)
    (found : find_row (is_pool g.period_id g.budget_type) db.budgets ≡ some b)
    (held : find_row (is_grant g.id) db.grants ≡ some g) where
  -- Both rows written, for one of the two moves.
  written_both :
      (c : Budget) (change : Grant → Grant) (test : Grant → Bool) (budgets : List Budget)
      (grants : List Grant)
      → update_row (is_version c) (with_amounts c) db.budgets ≡ some budgets
      → update_row test change db.grants ≡ some grants
      → ((x : Grant) → test x ≡ true → x.id ≡ g.id)
      → c.id ≡ b.id
      → with_amounts c b ≡ c
      → Kept c
      → IsMark change g
      → Forward g.status (change g).status
      → (Moved grant_id change db.grants grants g
          → (p : ℕ) (t : String) → draws p t g ≡ true
          → Tied p t db.grants b
          → Tied p t grants c)
      → Moves change g db (record db { budgets = budgets; grants = grants })
  written_both c change test budgets grants u v same id_c amounts kept mark forward tied =
      let of_budget =
        (update_row-Moved budget_id (is_version c) (with_amounts c) db.budgets b balanced.budget_ids
          (find_row-In (is_pool g.period_id g.budget_type) db.budgets found) (version_id b c id_c)
          u).1 in
      let of_grant =
        (update_row-Moved grant_id test change db.grants g balanced.grant_ids
          (find_row-In (is_grant g.id) db.grants held) same v).1 in
      record {
        balanced =
            moved-IsBalanced db b c g change budgets grants balanced found of_budget of_grant mark
              amounts kept (tied of_grant);
        row = of_grant;
        advanced = record {
          id = mark.id;
          amount = mark.amount;
          period = mark.period;
          kind = mark.kind;
          forward = forward;
        };
      }

  settled-Tied :
      (at : ℕ) (grants : List Grant)
      → g.status ≡ "pending"
      → Moved grant_id (settled_at at) db.grants grants g
      → (p : ℕ) (t : String) → draws p t g ≡ true
      → Tied p t db.grants b
      → Tied p t grants (settled_by g.amount b)
  settled-Tied at grants s m p t h l =
      Tied-settled p t (settled_at at) db.grants grants g b m h h s refl refl l

  released-Tied :
      (at : ℕ) (grants : List Grant)
      → g.status ≡ "settled"
      → Moved grant_id (reversed_at at) db.grants grants g
      → (p : ℕ) (t : String) → draws p t g ≡ true
      → Tied p t db.grants b
      → Tied p t grants (released_by g.amount b)
  released-Tied at grants s m p t h l =
      Tied-released p t (reversed_at at) db.grants grants g b m h h s refl refl l

  write_settled :
      (at : ℕ)
      → g.status ≡ "pending"
      → Kept (settled_by g.amount b)
      → Ensures
          (λ _ d. Moves (settled_at at) g db d)
          (after
            (save_budget fails (settled_by g.amount b) db)
            (λ _. transition_grant fails g.id "pending" "settled" at))
  write_settled at s k =
      Ensures-after _ _ (save_budget fails (settled_by g.amount b) db)
        (λ _. transition_grant fails g.id "pending" "settled" at)
        (save_budget-Ensures fails (settled_by g.amount b) db)
        (λ _ d (budgets, u, e). rw e (
          Ensures-weaken _ _
            (transition_grant fails g.id "pending" "settled" at (record db { budgets = budgets }))
            (settle-Ensures fails g.id at (record db { budgets = budgets }))
            (λ _ d' (grants, v, e'). rw e' (
              written_both (settled_by g.amount b) (settled_at at) (is_from g.id "pending" false)
                budgets grants u v (from_id g.id "pending" false) refl refl k
                (record { id = refl; period = refl; kind = refl; amount = refl })
                (inr (inl (s, inl refl))) (settled-Tied at grants s)))))

  write_reversed :
      (at : ℕ)
      → g.status ≡ "settled"
      → Kept (released_by g.amount b)
      → Ensures
          (λ _ d. Moves (reversed_at at) g db d)
          (after
            (save_budget fails (released_by g.amount b) db)
            (λ _. transition_grant fails g.id "settled" "reversed" at))
  write_reversed at s k =
      Ensures-after _ _ (save_budget fails (released_by g.amount b) db)
        (λ _. transition_grant fails g.id "settled" "reversed" at)
        (save_budget-Ensures fails (released_by g.amount b) db)
        (λ _ d (budgets, u, e). rw e (
          Ensures-weaken _ _
            (transition_grant fails g.id "settled" "reversed" at (record db { budgets = budgets }))
            (reverse-Ensures fails g.id at (record db { budgets = budgets }))
            (λ _ d' (grants, v, e'). rw e' (
              written_both (released_by g.amount b) (reversed_at at) (is_from g.id "settled" false)
                budgets grants u v (from_id g.id "settled" false) refl refl k
                (record { id = refl; period = refl; kind = refl; amount = refl })
                (inr (inr (s, refl))) (released-Tied at grants s)))))

module _ (w : World) (db : Db) (g : Grant) (balanced : IsBalanced db)
    (held : find_row (is_grant g.id) db.grants ≡ some g) where
  IsAmount-of : IsAmount g
  IsAmount-of = All-In IsAmount balanced.amounts (find_row-In (is_grant g.id) db.grants held)

  stepped :
      (b : Budget) (r : Result BudgetError Budget)
      → find_row (is_pool g.period_id g.budget_type) db.budgets ≡ some b
      → g.status ≡ "pending"
      → settle_budget b g.amount ≡ r
      → Ensures
          (λ _ d. Moves (settled_at w.now) g db d)
          (after (budget_step r db) (λ next d.
            after
              (save_budget w.fails next d)
              (λ _. transition_grant w.fails g.id "pending" "settled" w.now)))
  stepped b (err x) f s q = tt
  stepped b (ok c) f s q =
      let k = (balanced.pools g.period_id g.budget_type b f).0 in
      let (is_c, kept, _) = settle_budget-ok b c g.amount k.in_range k.sound IsAmount-of.0 q in
      subst
        (λ x.
          Ensures (λ _ d. Moves (settled_at w.now) g db d)
            (after (save_budget w.fails x db)
              (λ _. transition_grant w.fails g.id "pending" "settled" w.now)))
        (sym is_c) (write_settled w.fails db b g balanced f held w.now s (subst Kept is_c kept))

  -- A pending grant is settled: its amount goes from reserved to settled.
  pub settle_grant-Moves : Ensures (λ _ d. Moves (settled_at w.now) g db d) (settle_grant w g db)
  unfolding settle_grant
  settle_grant-Moves = elim (Bool-cases (text_eq g.status "pending")) [
    | inr e ↦ rw e tt
    | inl e ↦ rw e (
        Ensures-after _ _ (get_budget_for_update w.fails g.period_id g.budget_type db) _
          (get_budget-Ensures w.fails g.period_id g.budget_type db)
          (λ b d (f, same).
            rw same
              (stepped b (settle_budget b g.amount) f ((text_eq_iff g.status "pending").0 e) refl)))
  ]

  stepped_back :
      (b : Budget) (r : Result BudgetError Budget)
      → find_row (is_pool g.period_id g.budget_type) db.budgets ≡ some b
      → g.status ≡ "settled"
      → release_budget b g.amount ≡ r
      → Ensures
          (λ _ d. Moves (reversed_at w.now) g db d)
          (after (budget_step r db) (λ next d.
            after
              (save_budget w.fails next d)
              (λ _. transition_grant w.fails g.id "settled" "reversed" w.now)))
  stepped_back b (err x) f s q = tt
  stepped_back b (ok c) f s q =
      let k = (balanced.pools g.period_id g.budget_type b f).0 in
      let positive : pos 0 ≤ℤ g.amount = omega (arith, IsAmount-of.1) in
      let (is_c, kept) =
        release_budget-ok b c g.amount k.in_range k.sound IsAmount-of.0 positive q in
      subst
        (λ x.
          Ensures (λ _ d. Moves (reversed_at w.now) g db d)
            (after (save_budget w.fails x db)
              (λ _. transition_grant w.fails g.id "settled" "reversed" w.now)))
        (sym is_c) (write_reversed w.fails db b g balanced f held w.now s (subst Kept is_c kept))

  abbrev pub Reverses : Unit {0} → Db → Type 0
  Reverses _ d = (d ≡ db) ⊎ Moves (reversed_at w.now) g db d

  reverse_settled :
      (b : Budget) (r : Result BudgetError Budget)
      → find_row (is_pool g.period_id g.budget_type) db.budgets ≡ some b
      → g.status ≡ "settled"
      → release_budget b g.amount ≡ r
      → Ensures Reverses (
          after (budget_step r db) (λ next d.
            after
              (save_budget w.fails next d)
              (λ _. transition_grant w.fails g.id "settled" "reversed" w.now)))
  reverse_settled b r f s q =
      Ensures-weaken {S = Db} {E = StoreError} {T = Unit {0}}
        (λ _ d. Moves (reversed_at w.now) g db d) Reverses
        (after (budget_step r db) (λ next d.
          after (save_budget w.fails next d)
            (λ _. transition_grant w.fails g.id "settled" "reversed" w.now)))
        (stepped_back b r f s q) (λ _ d m. inr m)

  -- A settled grant is reversed: its amount goes from settled to released.
  pub reverse_grant-Moves : Ensures Reverses (reverse_grant w g db)
  unfolding reverse_grant
  reverse_grant-Moves = elim (Bool-cases (text_eq g.status "reversed")) [
    | inl e ↦ rw e (inl refl)
    | inr e ↦ elim (Bool-cases (text_eq g.status "settled")) [
      | inr n ↦ rw (e, n) tt
      | inl n ↦
          rw (e, n)
            (Ensures-after _ Reverses (get_budget_for_update w.fails g.period_id g.budget_type db) _
              (get_budget-Ensures w.fails g.period_id g.budget_type db)
              (λ b d (f, same). rw same (
                reverse_settled b (release_budget b g.amount) f
                  ((text_eq_iff g.status "settled").0 n) refl)))
    ]
  ]
