-- ===== src/RewardAccounts/Balance.antt =====
-- The invariant: each budget's amounts are the sums over its grants, by status.
use meta_pulse.Prelude.{
  ℕ, ◌==◌, ◌≡◌, ◌<◌, refl, sym, ap, ◌∙◌, Bool, true, false, ◌&&◌, some, String, List, All,
  if◌then◌else◌,
}
use meta_pulse.Prelude.Int.{ℤ, pos, pos_part, neg_part, ◌+ℤ◌, ◌<ℤ◌, int_laws}
use meta_pulse.Prelude.Word.{IsInt64}
use meta_pulse.Prelude.Text.{text_eq}
use meta_pulse.Prelude.Table.{find_row, Unique, Moved, total, total-middle}
use meta_pulse.Budget.{Budget}
use meta_pulse.Budget.Moves.{Kept, settled_by, released_by}
use meta_pulse.RewardStore.{Grant, Db, is_pool}

-- The grant draws on the budget of the period and kind.
abbrev pub draws : ℕ → String → Grant → Bool
draws p t g = g.period_id == p && text_eq g.budget_type t

abbrev pub weight : String → ℕ → String → Grant → ℤ
weight status p t g = if draws p t g && text_eq g.status status then g.amount else pos 0

-- What the grants of a status draw on a budget.
abbrev pub sum_of : String → ℕ → String → List Grant → ℤ
sum_of status p t = total (weight status p t)

pub record Tied (p : ℕ) (t : String) (gs : List Grant) (b : Budget) : Type 0 where
  pub reserved : b.reserved ≡ sum_of "pending" p t gs
  pub settled : b.settled ≡ sum_of "settled" p t gs
  pub released : b.released ≡ sum_of "reversed" p t gs

abbrev pub grant_id : Grant → ℕ
grant_id g = g.id

abbrev pub budget_id : Budget → ℕ
budget_id b = b.id

abbrev pub IsAmount : Grant → Type 0
IsAmount g = IsInt64 g.amount × (pos 0 <ℤ g.amount)

pub record IsBalanced (db : Db) : Type 0 where
  pub grant_ids : Unique grant_id db.grants
  pub below : All (λ g. g.id < db.next_grant) db.grants
  pub amounts : All IsAmount db.grants
  pub budget_ids : Unique budget_id db.budgets
  pub pools :
      (p : ℕ) (t : String) (b : Budget)
      → find_row (is_pool p t) db.budgets ≡ some b
      → Kept b × Tied p t db.grants b

sum-moved :
    (s : String) (p : ℕ) (t : String) (change : Grant → Grant) (gs gs' : List Grant) (g : Grant)
    → Moved grant_id change gs gs' g
    → sum_of s p t gs' +ℤ weight s p t g ≡ sum_of s p t gs +ℤ weight s p t (change g)
sum-moved s p t change gs gs' g m =
    ap (λ (xs : List Grant). sum_of s p t xs +ℤ weight s p t g) m.after
    ∙ total-middle (weight s p t) m.pre m.post g (change g)
    ∙ ap (λ (xs : List Grant). sum_of s p t xs +ℤ weight s p t (change g)) (sym m.before)

-- A grant that draws on another budget, before and after its change.
pub Tied-other :
    (p : ℕ) (t : String) (change : Grant → Grant) (gs gs' : List Grant) (g : Grant) (b : Budget)
    → Moved grant_id change gs gs' g
    → draws p t g ≡ false
    → draws p t (change g) ≡ false
    → Tied p t gs b
    → Tied p t gs' b
Tied-other p t change gs gs' g b m h k l = record {
  reserved = l.reserved ∙ same "pending";
  settled = l.settled ∙ same "settled";
  released = l.released ∙ same "reversed";
}
  where
    same : (s : String) → sum_of s p t gs ≡ sum_of s p t gs'
    same s =
        let q = sum-moved s p t change gs gs' g m in
        let q0 : sum_of s p t gs' +ℤ pos 0 ≡ sum_of s p t gs +ℤ pos 0 = rw (h, k) at q in
        omega (int_laws, ap pos_part q0, ap neg_part q0)

-- The sums after one grant of the budget goes from one status to another.
pub sum-at :
    (s : String) (p : ℕ) (t : String) (change : Grant → Grant) (gs gs' : List Grant) (g : Grant)
    (x y : ℤ)
    → Moved grant_id change gs gs' g
    → weight s p t g ≡ x
    → weight s p t (change g) ≡ y
    → sum_of s p t gs' +ℤ x ≡ sum_of s p t gs +ℤ y
sum-at s p t change gs gs' g x y m h k =
    let q = sum-moved s p t change gs gs' g m in
    let q0 : sum_of s p t gs' +ℤ x ≡ sum_of s p t gs +ℤ y = rw (h, k) at q in q0

pub Tied-settled :
    (p : ℕ) (t : String) (change : Grant → Grant) (gs gs' : List Grant) (g : Grant) (b : Budget)
    → Moved grant_id change gs gs' g
    → draws p t g ≡ true
    → draws p t (change g) ≡ true
    → g.status ≡ "pending"
    → (change g).status ≡ "settled"
    → (change g).amount ≡ g.amount
    → Tied p t gs b
    → Tied p t gs' (settled_by g.amount b)
Tied-settled p t change gs gs' g b m h k from to same l =
    let a = g.amount in
    let pending =
      sum-at "pending" p t change gs gs' g a (pos 0) m (rw (h, from) refl) (rw (k, to) refl) in
    let settled =
      sum-at "settled" p t change gs gs' g (pos 0) a m (rw (h, from) refl)
        (rw (k, to, same) refl) in
    let reversed =
      sum-at "reversed" p t change gs gs' g (pos 0) (pos 0) m (rw (h, from) refl)
        (rw (k, to) refl) in
    record {
      reserved = rw l.reserved (omega (int_laws, ap pos_part pending, ap neg_part pending));
      settled = rw l.settled (omega (int_laws, ap pos_part settled, ap neg_part settled));
      released = rw l.released (omega (int_laws, ap pos_part reversed, ap neg_part reversed));
    }

pub Tied-released :
    (p : ℕ) (t : String) (change : Grant → Grant) (gs gs' : List Grant) (g : Grant) (b : Budget)
    → Moved grant_id change gs gs' g
    → draws p t g ≡ true
    → draws p t (change g) ≡ true
    → g.status ≡ "settled"
    → (change g).status ≡ "reversed"
    → (change g).amount ≡ g.amount
    → Tied p t gs b
    → Tied p t gs' (released_by g.amount b)
Tied-released p t change gs gs' g b m h k from to same l =
    let a = g.amount in
    let pending =
      sum-at "pending" p t change gs gs' g (pos 0) (pos 0) m (rw (h, from) refl)
        (rw (k, to) refl) in
    let settled =
      sum-at "settled" p t change gs gs' g a (pos 0) m (rw (h, from) refl) (rw (k, to) refl) in
    let reversed =
      sum-at "reversed" p t change gs gs' g (pos 0) a m (rw (h, from) refl)
        (rw (k, to, same) refl) in
    record {
      reserved = rw l.reserved (omega (int_laws, ap pos_part pending, ap neg_part pending));
      settled = rw l.settled (omega (int_laws, ap pos_part settled, ap neg_part settled));
      released = rw l.released (omega (int_laws, ap pos_part reversed, ap neg_part reversed));
    }
