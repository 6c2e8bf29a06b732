-- ===== src/RewardAccounts/Keeps.antt =====
-- What a committed transaction keeps: the balance, and every grant, whose status only advances.
use meta_pulse.Prelude.{
  ℕ, ◌==◌, ◌≡◌, ◌≢◌, refl, sym, ap, subst, ◌∙◌, Bool, true, false, Bool-cases, inl, inr, some,
  String, List, ◌∷◌, ◌++◌, In, arith,
}
use meta_pulse.Prelude.Text.{text_eq_iff}
use meta_pulse.Prelude.Result.{Result, ok, err}
use meta_pulse.Prelude.Tx.{Ensures, finish}
use meta_pulse.Prelude.Table.{
  find_row, find_row-In, find_row_holds, find_row-skip, find_row-hit, Unique, Unique-same,
  In-middle,
}
use meta_pulse.RewardStore.{Grant, Db, Tx, Call, StoreError, infrastructure, is_grant, run_tx}
use meta_pulse.RewardAccounts.Balance.{IsBalanced, grant_id}
use meta_pulse.RewardAccounts.Moves.{Moves, Advanced, Forward}

-- The tables that the accounting reads are the same.
pub record Same (db d : Db) : Type 0 where
  pub budgets : d.budgets ≡ db.budgets
  pub grants : d.grants ≡ db.grants
  pub next_grant : d.next_grant ≡ db.next_grant

pub record Keeps (db d : Db) : Type 0 where
  pub balanced : IsBalanced d
  pub rows :
      (id : ℕ) (g : Grant)
      → find_row (is_grant id) db.grants ≡ some g
      → (h : Grant) × (find_row (is_grant id) d.grants ≡ some h) × Advanced g h

pub Advanced-refl : (g : Grant) → Advanced g g
Advanced-refl g = record {
  id = refl;
  amount = refl;
  period = refl;
  kind = refl;
  forward = inl refl;
}

pub settled_pending : ◌≢◌ {A = String} "settled" "pending"
settled_pending h = let e : false ≡ true = (text_eq_iff "settled" "pending").1 h in cc

pub reversed_pending : ◌≢◌ {A = String} "reversed" "pending"
reversed_pending h = let e : false ≡ true = (text_eq_iff "reversed" "pending").1 h in cc

pub reversed_settled : ◌≢◌ {A = String} "reversed" "settled"
reversed_settled h = let e : false ≡ true = (text_eq_iff "reversed" "settled").1 h in cc

Forward-trans : (a b c : String) → Forward a b → Forward b c → Forward a c
Forward-trans a b c (inl e) k = subst (λ x. Forward x c) (sym e) k
Forward-trans a b c (inr h) (inl e) = subst (λ x. Forward a x) e (inr h)
Forward-trans a b c (inr (inl (p, inl s))) (inr (inl (q, r))) =
    elim (settled_pending (sym s ∙ q)) [ ]
Forward-trans a b c (inr (inl (p, inl s))) (inr (inr (q, r))) = inr (inl (p, inr r))
Forward-trans a b c (inr (inl (p, inr s))) (inr (inl (q, r))) =
    elim (reversed_pending (sym s ∙ q)) [ ]
Forward-trans a b c (inr (inl (p, inr s))) (inr (inr (q, r))) =
    elim (reversed_settled (sym s ∙ q)) [ ]
Forward-trans a b c (inr (inr (p, s))) (inr (inl (q, r))) = elim (reversed_pending (sym s ∙ q)) [ ]
Forward-trans a b c (inr (inr (p, s))) (inr (inr (q, r))) = elim (reversed_settled (sym s ∙ q)) [ ]

Advanced-trans : (f g h : Grant) → Advanced f g → Advanced g h → Advanced f h
Advanced-trans f g h a b = record {
  id = b.id ∙ a.id;
  amount = b.amount ∙ a.amount;
  period = b.period ∙ a.period;
  kind = b.kind ∙ a.kind;
  forward = Forward-trans f.status g.status h.status a.forward b.forward;
}

pub Keeps-refl : (db : Db) → IsBalanced db → Keeps db db
Keeps-refl db b = record { balanced = b; rows = λ id g f. (g, f, Advanced-refl g) }

pub Keeps-trans : (a b c : Db) → Keeps a b → Keeps b c → Keeps a c
Keeps-trans a b c k l = record {
  balanced = l.balanced;
  rows = λ id f q.
      let (g, r, x) = k.rows id f q in
      let (h, s, y) = l.rows id g r in (h, s, Advanced-trans f g h x y);
}

pub Keeps-Same : (db d : Db) → IsBalanced db → Same db d → Keeps db d
Keeps-Same db d b s = record {
  balanced = record {
    grant_ids = rw s.grants b.grant_ids;
    below = rw (s.grants, s.next_grant) b.below;
    amounts = rw s.grants b.amounts;
    budget_ids = rw s.budgets b.budget_ids;
    pools = rw (s.grants, s.budgets) b.pools;
  };
  rows = λ id g f. (g, ap (find_row (is_grant id)) s.grants ∙ f, Advanced-refl g);
}

some_eq {ℓ} : {A : Type ℓ} {x y : A} → some x ≡ some y → x ≡ y
some_eq h = cc

pub is_grant-eq : (id : ℕ) (g : Grant) → is_grant id g ≡ true → g.id ≡ id
is_grant-eq id g h = ground (arith, h)

pub Keeps-Moves :
    (db d : Db) (g : Grant) (change : Grant → Grant)
    → IsBalanced db
    → Moves change g db d
    → Keeps db d
Keeps-Moves db d g change b m = record {
  balanced = m.balanced;
  rows = λ id f q. elim (Bool-cases (is_grant id g)) [
    | inl h ↦
        let there_g : In g db.grants =
          subst (λ (xs : List Grant). In g xs) (sym m.row.before)
            (In-middle m.row.pre m.row.post g) in
        let ids : f.id ≡ g.id =
          is_grant-eq id f (find_row_holds (is_grant id) db.grants q) ∙ sym (is_grant-eq id g h) in
        let same : f ≡ g =
          Unique-same grant_id db.grants f g b.grant_ids (find_row-In (is_grant id) db.grants q)
            there_g ids in
        let old : find_row (is_grant id) (m.row.pre ++ g ∷ m.row.post) ≡ some g =
          ap (find_row (is_grant id)) (sym m.row.before) ∙ q ∙ ap some same in
        let hit =
          find_row-hit grant_id (is_grant id) m.row.pre m.row.post g (change g)
            (subst (λ (xs : List Grant). Unique grant_id xs) m.row.before b.grant_ids) old
            ((λ i. m.advanced.id i == id) ∙ h) in
        (
          change g,
          ap (find_row (is_grant id)) m.row.after ∙ hit,
          subst (λ x. Advanced x (change g)) (sym same) m.advanced,
        )
    | inr h ↦
        let skip =
          find_row-skip (is_grant id) change m.row.pre m.row.post g h
            ((λ i. m.advanced.id i == id) ∙ h) in
        (
          f,
          ap (find_row (is_grant id)) m.row.after
              ∙ skip
              ∙ ap (find_row (is_grant id)) (sym m.row.before)
              ∙ q,
          Advanced-refl f,
        )
  ];
}

-- An error, of the body or of the commit, leaves the tables as they were.
pub run_tx-Keeps :
    {T : Type 0} (fails : Call → Bool) (c : Call) (body : Tx T) (db : Db)
    → IsBalanced db
    → Ensures (λ _ d. Keeps db d) (body db)
    → Keeps db (run_tx fails c body db).1
unfolding run_tx
run_tx-Keeps {T = T} fails c body db b h = finished (body db) h
  where
    finished :
        (r : Result StoreError T × Db)
        → Ensures (λ _ d. Keeps db d) r
        → Keeps db (finish (fails c) infrastructure db r).1
    finished (err e, d) k = Keeps-refl db b
    finished (ok x, d) k = elim (Bool-cases (fails c)) [
      | inl e ↦ rw e (Keeps-refl db b)
      | inr e ↦ rw e k
    ]
