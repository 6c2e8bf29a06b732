-- ===== src/LedgerStore/Rows.antt =====
-- Laws of the row operations: what a lookup finds after an insertion or an update.
use meta_pulse.Prelude.{
  ℕ, ◌≡◌, ◌≢◌, ◌↔◌, refl, true, false, Bool-cases, inl, inr, none, some, String, List, [], ◌∷◌,
  ◌++◌, All, arith, ap, sym, subst, ◌∙◌, if◌then◌else◌,
}
use meta_pulse.Prelude.Text.{text_eq_iff}
use meta_pulse.Ledger.{AssetType, Operation, Entry, Account, operation_eq}
use meta_pulse.Ledger.Apply.{asset_eq_iff}
use meta_pulse.LedgerStore.{
  is_entry_of, is_at, is_keyed, find_entry, account_entries, find_account, update_row,
}

pub account_entries-append :
    (u p : ℕ) (t : AssetType) (es : List Entry) (e : Entry)
    → account_entries u p t (es ++ e ∷ []) ≡ (
        if is_entry_of u p t e
        then account_entries u p t es ++ e ∷ []
        else account_entries u p t es)
unfolding account_entries
account_entries-append u p t [] e = refl
account_entries-append u p t (x ∷ es) e = ground (arith, account_entries-append u p t es e)

pub find_entry-append :
    (o : Operation) (k : String) (es : List Entry) (e : Entry)
    → find_entry o k es ≡ none
    → is_keyed o k e ≡ true
    → find_entry o k (es ++ e ∷ []) ≡ some e
unfolding find_entry
find_entry-append o k [] e h m = ground arith
find_entry-append o k (x ∷ es) e h m = ground (arith, find_entry-append o k es e)

pub find_account-append :
    (u p : ℕ) (t : AssetType) (rows : List Account) (a : Account)
    → find_account u p t (rows ++ a ∷ []) ≡ elim (find_account u p t rows) [
      | some b ↦ some b
      | none ↦ (if is_at u p t a then some a else none)
    ]
unfolding find_account
find_account-append u p t [] a = refl
find_account-append u p t (r ∷ rows) a = elim (Bool-cases (is_at u p t r)) [
  | inl e ↦ rw e refl
  | inr e ↦ rw e (find_account-append u p t rows a)
]

pub is_at_iff :
    (u p : ℕ) (t : AssetType) (a : Account)
    → (is_at u p t a ≡ true) ↔ ((a.user_id ≡ u) × (a.period_id ≡ p) × (a.asset_type ≡ t))
is_at_iff u p t a = ground (arith, asset_eq_iff a.asset_type t)

abbrev pub ids : List Account → List ℕ
ids [] = []
ids (r ∷ rows) = r.id ∷ ids rows

-- No identity is listed twice.
abbrev pub Distinct : List ℕ → Type 0
Distinct [] = Unit
Distinct (n ∷ ns) = All (λ m. m ≢ n) ns × Distinct ns

-- A row with the balance and the version of another.
abbrev pub moved : Account → Account → Account
moved c a = record c { balance = a.balance; version = a.version }

some_eq {ℓ} : {A : Type ℓ} {x y : A} → some x ≡ some y → x ≡ y
some_eq h = cc

pub find_account-ids :
    (u p n : ℕ) (t : AssetType) (rows : List Account) (c : Account)
    → All (λ m. m ≢ n) (ids rows)
    → find_account u p t rows ≡ some c
    → c.id ≢ n
unfolding find_account
find_account-ids u p n t [] c h f = cc
find_account-ids u p n t (r ∷ rows) c h f = elim (Bool-cases (is_at u p t r)) [
  | inl e ↦ subst (λ (x : Account). x.id ≢ n) (some_eq (rw e at f)) h.0
  | inr e ↦ find_account-ids u p n t rows c h.1 (rw e at f)
]

pub find_account-is_at :
    (u p : ℕ) (t : AssetType) (rows : List Account) (c : Account)
    → find_account u p t rows ≡ some c
    → is_at u p t c ≡ true
unfolding find_account
find_account-is_at u p t [] c f = cc
find_account-is_at u p t (r ∷ rows) c f = elim (Bool-cases (is_at u p t r)) [
  | inl e ↦ subst (λ (x : Account). is_at u p t x ≡ true) (some_eq (rw e at f)) e
  | inr e ↦ find_account-is_at u p t rows c (rw e at f)
]

-- What an update of the row `c` does.
pub record Updated (rows : List Account) (c a : Account) (rows' : List Account) : Type 0 where
  pub same_ids : ids rows' ≡ ids rows
  pub lookup :
      (u p : ℕ) (t : AssetType)
      → find_account u p t rows'
        ≡ (if is_at u p t c then some (moved c a) else find_account u p t rows)

update_row-hit :
    (r a : Account) (rows : List Account)
    → (rows' : List Account) × (update_row r.id r.version a (r ∷ rows) ≡ some rows')
      × Updated (r ∷ rows) r a rows'
unfolding update_row find_account
update_row-hit r a rows = (
  moved r a ∷ rows,
  ground arith,
  record {
    same_ids = refl;
    lookup = λ u p t. elim (Bool-cases (is_at u p t r)) [ inl e ↦ rw e refl | inr e ↦ rw e refl ];
  },
)

-- Two rows at one key are not told apart by it.
same_key :
    (u p u' p' : ℕ) (t t' : AssetType) (c r : Account)
    → is_at u p t c ≡ true
    → is_at u' p' t' c ≡ true
    → is_at u' p' t' r ≡ true
    → is_at u p t r ≡ true
same_key u p u' p' t t' c r h k l =
    let a = (is_at_iff u p t c).0 h in
    let b = (is_at_iff u' p' t' c).0 k in
    let d = (is_at_iff u' p' t' r).0 l in
    (is_at_iff u p t r).1 (d.0 ∙ sym b.0 ∙ a.0, d.1 ∙ sym b.1 ∙ a.1, d.2 ∙ sym b.2 ∙ a.2)

update_row-miss :
    (u p : ℕ) (t : AssetType) (r c a : Account) (rows rows' : List Account)
    → r.id ≢ c.id
    → is_at u p t r ≡ false
    → is_at u p t c ≡ true
    → update_row c.id c.version a rows ≡ some rows'
    → Updated rows c a rows'
    → (update_row c.id c.version a (r ∷ rows) ≡ some (r ∷ rows'))
      × Updated (r ∷ rows) c a (r ∷ rows')
unfolding update_row find_account
update_row-miss u p t r c a rows rows' n e k q up = (
  ground arith,
  record {
    same_ids = ap (λ (ns : List ℕ). r.id ∷ ns) up.same_ids;
    lookup = λ u' p' t'. elim (Bool-cases (is_at u' p' t' r)) [
      | inr x ↦ rw x (up.lookup u' p' t')
      | inl x ↦ elim (Bool-cases (is_at u' p' t' c)) [
        | inl y ↦ cc (same_key u p u' p' t t' c r k y x, e)
        | inr y ↦ rw (x, y)
      ]
    ];
  },
)

-- An update by the identity and the version of a row that a lookup finds affects that row alone.
pub update_row-Updated :
    (u p : ℕ) (t : AssetType) (rows : List Account) (c a : Account)
    → Distinct (ids rows)
    → find_account u p t rows ≡ some c
    → (rows' : List Account) × (update_row c.id c.version a rows ≡ some rows')
      × Updated rows c a rows'
unfolding find_account
update_row-Updated u p t [] c a d f = cc
update_row-Updated u p t (r ∷ rows) c a d f = elim (Bool-cases (is_at u p t r)) [
  | inl e ↦
      subst
        (λ (x : Account).
          (rows' : List Account) × (update_row x.id x.version a (r ∷ rows) ≡ some rows')
          × Updated (r ∷ rows) x a rows')
        (some_eq (rw e at f)) (update_row-hit r a rows)
  | inr e ↦
      let g : find_account u p t rows ≡ some c = rw e at f in
      let (rows', q, up) = update_row-Updated u p t rows c a d.1 g in
      let n = find_account-ids u p r.id t rows c d.0 g in
      (
        r ∷ rows',
        (update_row-miss u p t r c a rows rows' (λ x. n (sym x)) e
            (find_account-is_at u p t rows c g) q up).0,
        (update_row-miss u p t r c a rows rows' (λ x. n (sym x)) e
            (find_account-is_at u p t rows c g) q up).1,
      )
]

pub operation_eq_refl : (o : Operation) → operation_eq o o ≡ true
unfolding operation_eq
operation_eq_refl (Operation.other s) = (text_eq_iff s s).1 refl
operation_eq_refl _ = refl

pub is_keyed_refl : (e : Entry) → is_keyed e.operation e.idempotency_key e ≡ true
is_keyed_refl e =
    rw (operation_eq_refl e.operation) ((text_eq_iff e.idempotency_key e.idempotency_key).1 refl)
