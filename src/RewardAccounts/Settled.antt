-- ===== src/RewardAccounts/Settled.antt =====
-- A grant and its budget, moved together, stay balanced.
use meta_pulse.Prelude.{
  ℕ, ◌==◌, ◌≡◌, ◌↔◌, ◌<◌, refl, sym, ap, subst, ◌∙◌, true, false, ◌&&◌, Bool-cases, inl, inr, some,
  String, List, ◌∷◌, ◌++◌, All, arith,
}
use meta_pulse.Prelude.Int.{pos, ◌<ℤ◌}
use meta_pulse.Prelude.Word.{IsInt64}
use meta_pulse.Prelude.Text.{text_eq, text_eq_iff}
use meta_pulse.Prelude.Table.{
  find_row, find_row_holds, find_row-skip, find_row-hit, Unique, Unique-middle, All-middle, All-hit,
  Moved,
}
use meta_pulse.Budget.{Budget}
use meta_pulse.Budget.Moves.{Kept}
use meta_pulse.RewardStore.{Grant, Db, is_pool, with_amounts}
use meta_pulse.RewardAccounts.Balance.{
  IsBalanced, IsAmount, Tied, Tied-other, draws, grant_id, budget_id,
}

some_eq {ℓ} : {A : Type ℓ} {x y : A} → some x ≡ some y → x ≡ y
some_eq h = cc

is_pool_iff :
    (p : ℕ) (t : String) (b : Budget)
    → (is_pool p t b ≡ true) ↔ ((b.period_id ≡ p) × (b.budget_type ≡ t))
is_pool_iff p t b = ground (arith, text_eq_iff b.budget_type t)

draws_iff :
    (p : ℕ) (t : String) (g : Grant)
    → (draws p t g ≡ true) ↔ ((g.period_id ≡ p) × (g.budget_type ≡ t))
draws_iff p t g = ground (arith, text_eq_iff g.budget_type t)

-- A change of a grant's status and times, which its budget and amount survive.
pub record IsMark (change : Grant → Grant) (g : Grant) : Type 0 where
  pub id : (change g).id ≡ g.id
  pub period : (change g).period_id ≡ g.period_id
  pub kind : (change g).budget_type ≡ g.budget_type
  pub amount : (change g).amount ≡ g.amount

pub draws-mark :
    (p : ℕ) (t : String) (change : Grant → Grant) (g : Grant)
    → IsMark change g
    → draws p t (change g) ≡ draws p t g
draws-mark p t change g m = λ i. m.period i == p && text_eq (m.kind i) t

-- A budget serves the keys that its grants draw on.
draws-pool :
    (p : ℕ) (t : String) (g : Grant) (b : Budget)
    → is_pool g.period_id g.budget_type b ≡ true
    → draws p t g ≡ is_pool p t b
draws-pool p t g b h =
    let (ep, et) = (is_pool_iff g.period_id g.budget_type b).0 h in
    λ i. sym ep i == p && text_eq (sym et i) t

-- The budgets after one of them moved together with a grant that draws on it.
module _ (db : Db) (b c : Budget) (g : Grant) (budgets : List Budget) (grants : List Grant)
    (balanced : IsBalanced db)
    (found : find_row (is_pool g.period_id g.budget_type) db.budgets ≡ some b)
    (of_budget : Moved budget_id (with_amounts c) db.budgets budgets b)
    (same : with_amounts c b ≡ c) (kept : Kept c)
    (tied : (p : ℕ) (t : String) → draws p t g ≡ true → Tied p t db.grants b → Tied p t grants c)
    (aside : (p : ℕ) (t : String) (x : Budget)
      → draws p t g ≡ false
      → Tied p t db.grants x
      → Tied p t grants x) where
  at_pool : is_pool g.period_id g.budget_type b ≡ true
  at_pool = find_row_holds (is_pool g.period_id g.budget_type) db.budgets found

  same_pool : (p : ℕ) (t : String) → is_pool p t c ≡ is_pool p t b
  same_pool p t = λ i. is_pool p t (sym same i)

  pool-hit :
      (p : ℕ) (t : String) (b' : Budget)
      → is_pool p t b ≡ true
      → find_row (is_pool p t) budgets ≡ some b'
      → Kept b' × Tied p t grants b'
  pool-hit p t b' h f =
      let (ep, et) = (is_pool_iff p t b).0 h in
      let (gp, gt) = (is_pool_iff g.period_id g.budget_type b).0 at_pool in
      let old : find_row (is_pool p t) db.budgets ≡ some b =
        (λ i. find_row (is_pool ((sym ep ∙ gp) i) ((sym et ∙ gt) i)) db.budgets) ∙ found in
      let old_split : find_row (is_pool p t) (of_budget.pre ++ b ∷ of_budget.post) ≡ some b =
        subst (λ (xs : List Budget). find_row (is_pool p t) xs ≡ some b) of_budget.before old in
      let unique =
        subst (λ (xs : List Budget). Unique budget_id xs) of_budget.before balanced.budget_ids in
      let new =
        find_row-hit budget_id (is_pool p t) of_budget.pre of_budget.post b (with_amounts c b)
          unique old_split h in
      let f_split : find_row (is_pool p t) (of_budget.pre ++ with_amounts c b ∷ of_budget.post)
          ≡ some b' =
        subst (λ (xs : List Budget). find_row (is_pool p t) xs ≡ some b') of_budget.after f in
      let is_c : c ≡ b' = sym same ∙ some_eq (sym new ∙ f_split) in
      let old_tied = (balanced.pools p t b old).1 in
      subst (λ x. Kept x × Tied p t grants x) is_c
        (kept, tied p t (draws-pool p t g b at_pool ∙ h) old_tied)

  pool-miss :
      (p : ℕ) (t : String) (b' : Budget)
      → is_pool p t b ≡ false
      → find_row (is_pool p t) budgets ≡ some b'
      → Kept b' × Tied p t grants b'
  pool-miss p t b' h f =
      let skip = find_row-skip (is_pool p t) (with_amounts c) of_budget.pre of_budget.post b h h in
      let old : find_row (is_pool p t) db.budgets ≡ some b' =
        ap (find_row (is_pool p t)) of_budget.before
        ∙ sym skip
        ∙ ap (find_row (is_pool p t)) (sym of_budget.after)
        ∙ f in
      let (k, l) = balanced.pools p t b' old in (k, aside p t b' (draws-pool p t g b at_pool ∙ h) l)

  pub moved_pools :
      (p : ℕ) (t : String) (b' : Budget)
      → find_row (is_pool p t) budgets ≡ some b'
      → Kept b' × Tied p t grants b'
  moved_pools p t b' f = elim (Bool-cases (is_pool p t b)) [
    | inl h ↦ pool-hit p t b' h f
    | inr h ↦ pool-miss p t b' h f
  ]

pub rows_kept :
    {R : Type 0} (id : R → ℕ) (change' : R → R) (rows rows' : List R) (r : R)
    → Moved id change' rows rows' r
    → id (change' r) ≡ id r
    → Unique id rows
    → Unique id rows'
rows_kept id change' rows rows' r m e u =
    subst (λ xs. Unique id xs) (sym m.after)
      (Unique-middle id m.pre m.post r (change' r) e (subst (λ xs. Unique id xs) m.before u))

pub All-kept :
    {R : Type 0} (id : R → ℕ) (P : R → Type 0) (change' : R → R) (rows rows' : List R) (r : R)
    → Moved id change' rows rows' r
    → (P r → P (change' r))
    → All P rows
    → All P rows'
All-kept id P change' rows rows' r m f h =
    let k = subst (λ xs. All P xs) m.before h in
    subst (λ xs. All P xs) (sym m.after)
      (All-middle id P m.pre m.post r (change' r) (f (All-hit id P m.pre m.post r k)) k)

module _ (db : Db) (b c : Budget) (g : Grant) (change : Grant → Grant) (budgets : List Budget)
    (grants : List Grant) (balanced : IsBalanced db)
    (found : find_row (is_pool g.period_id g.budget_type) db.budgets ≡ some b)
    (of_budget : Moved budget_id (with_amounts c) db.budgets budgets b)
    (of_grant : Moved grant_id change db.grants grants g) (mark : IsMark change g)
    (same : with_amounts c b ≡ c) (kept : Kept c)
    (tied : (p : ℕ) (t : String)
      → draws p t g ≡ true
      → Tied p t db.grants b
      → Tied p t grants c) where
  -- The budget and the grant, both written.
  pub moved-IsBalanced : IsBalanced (record db { budgets = budgets; grants = grants })
  moved-IsBalanced = record {
    grant_ids = rows_kept grant_id change db.grants grants g of_grant mark.id balanced.grant_ids;
    below =
        All-kept grant_id (λ x. x.id < db.next_grant) change db.grants grants g of_grant
          (subst (λ n. n < db.next_grant) (sym mark.id)) balanced.below;
    amounts =
        All-kept grant_id IsAmount change db.grants grants g of_grant
          (subst (λ a. IsInt64 a × (pos 0 <ℤ a)) (sym mark.amount)) balanced.amounts;
    budget_ids =
        rows_kept budget_id (with_amounts c) db.budgets budgets b of_budget refl
          balanced.budget_ids;
    pools =
        moved_pools db b c g budgets grants balanced found of_budget same kept tied (λ p t x miss l.
          Tied-other p t change db.grants grants g x of_grant miss
            (draws-mark p t change g mark ∙ miss) l);
  }
