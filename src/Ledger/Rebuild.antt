-- ===== src/Ledger/Rebuild.antt =====
-- `Rebuild`: what a replay of the entries establishes, and which histories it refuses.
use meta_pulse.Prelude.{
  ℕ, suc, ◌+◌, ◌≡◌, ◌≢◌, ◌↔◌, refl, sym, subst, ◌∙◌, List, [], ◌∷◌, ◌++◌, length, All, arith,
}
use meta_pulse.Prelude.Int.{ℤ, pos, ◌+ℤ◌, int_laws, eqb_ℤ→eq, +ℤ_cancel}
use meta_pulse.Prelude.Word.{IsInt64}
use meta_pulse.Prelude.Result.{ok, >>=-ok}
use meta_pulse.Ledger.Defs.{Entry, Account, apply, replay, rebuild_from, rebuild}
use meta_pulse.Ledger.Validate.{IsWellFormed}
use meta_pulse.Ledger.Apply.{InRange, Owns, Applied, apply-Applied}

-- The amounts of the entries are int64 values.
abbrev pub Amounts : List Entry → Type 0
Amounts = All (λ e. IsInt64 e.amount)

abbrev pub sum : List Entry → ℤ
sum [] = pos 0
sum (e ∷ es) = e.amount +ℤ sum es

-- Each stored balance is the one before it plus the entry's amount.
abbrev pub Chains : ℤ → List Entry → Type 0
Chains b [] = Unit
Chains b (e ∷ es) = (e.balance_after ≡ b +ℤ e.amount) × Chains (b +ℤ e.amount) es

-- Each entry is the account's own and well formed.
abbrev pub Accepts : Account → List Entry → Type 0
Accepts a = All (λ e. Owns a e × IsWellFormed e)

-- `b` is `a` after all the entries.
pub record Replayed (a : Account) (es : List Entry) (b : Account) : Type 0 where
  pub id : b.id ≡ a.id
  pub user : b.user_id ≡ a.user_id
  pub period : b.period_id ≡ a.period_id
  pub asset : b.asset_type ≡ a.asset_type
  pub balance : b.balance ≡ a.balance +ℤ sum es
  pub version : b.version ≡ a.version + length es
  pub range : InRange b
  pub accepted : Accepts a es
  pub chained : Chains a.balance es

replay-ok :
    (n : ℕ) (a : Account) (e : Entry) {b : Account}
    → replay n a e ≡ ok b
    → (apply a e ≡ ok b) × (b.balance ≡ e.balance_after)
unfolding replay
replay-ok n a e {b} p = ground (arith, eqb_ℤ→eq b.balance e.balance_after)

replay_of_ok :
    (n : ℕ) (a : Account) (e : Entry) (b : Account)
    → apply a e ≡ ok b
    → b.balance ≡ e.balance_after
    → replay n a e ≡ ok b
unfolding replay
replay_of_ok n a e b p q = rw p (ground arith)

Accepts-moved :
    (a b : Account) (es : List Entry)
    → b.user_id ≡ a.user_id
    → b.period_id ≡ a.period_id
    → b.asset_type ≡ a.asset_type
    → Accepts b es
    → Accepts a es
Accepts-moved a b [] u p t h = tt
Accepts-moved a b (e ∷ es) u p t h = (ground (arith, h.0), Accepts-moved a b es u p t h.1)

Replayed-nil : (a : Account) → InRange a → Replayed a [] a
Replayed-nil a r = record {
  id = refl;
  user = refl;
  period = refl;
  asset = refl;
  balance = omega int_laws;
  version = omega arith;
  range = r;
  accepted = tt;
  chained = tt;
}

Replayed-cons :
    (a m b : Account) (e : Entry) (es : List Entry)
    → Owns a e
    → IsWellFormed e
    → Applied a e m
    → m.balance ≡ e.balance_after
    → Replayed m es b
    → Replayed a (e ∷ es) b
Replayed-cons a m b e es o w s snap l = record {
  id = l.id ∙ s.id;
  user = l.user ∙ s.user;
  period = l.period ∙ s.period;
  asset = l.asset ∙ s.asset;
  balance = l.balance ∙ rw s.balance (omega int_laws);
  version = omega (arith, l.version, s.version);
  range = l.range;
  accepted = ((o, w), Accepts-moved a m es s.user s.period s.asset l.accepted);
  chained = (sym snap ∙ s.balance, subst (λ x. Chains x es) s.balance l.chained);
}

rebuild_from-Replayed :
    (n : ℕ) (a : Account) (es : List Entry) {b : Account}
    → InRange a
    → Amounts es
    → rebuild_from n a es ≡ ok b
    → Replayed a es b
unfolding rebuild_from
rebuild_from-Replayed n a [] {b} r h p =
    let same : a ≡ b = cc in subst (λ x. Replayed a [] x) same (Replayed-nil a r)
rebuild_from-Replayed n a (e ∷ es) {b} r h p =
    let (next, q, rest) = >>=-ok (replay n a e) (λ next. rebuild_from (suc n) next es) p in
    let (applied, snap) = replay-ok n a e q in
    let (owns, wf, step) = apply-Applied a e r h.0 applied in
    Replayed-cons a next b e es owns wf step snap (
      rebuild_from-Replayed (suc n) next es (record { balance = step.fits; version = step.bounded })
        h.1 rest)

-- A replay that succeeds returns the account moved by the exact sum of the amounts, its version
-- grown by their number; every entry is the account's own and well formed, and every stored
-- balance is the one before it plus the entry's amount.
pub rebuild-Replayed :
    (a : Account) (es : List Entry) {b : Account}
    → InRange a
    → Amounts es
    → rebuild a es ≡ ok b
    → Replayed a es b
unfolding rebuild
rebuild-Replayed a es r h p = rebuild_from-Replayed 0 a es r h p

regroup : (b x y : ℤ) → b +ℤ x +ℤ y ≡ b +ℤ y +ℤ x
regroup b x y = omega int_laws

+ℤ_zero : (b : ℤ) → b +ℤ pos 0 ≡ b
+ℤ_zero b = omega int_laws

Chains-gap :
    (b : ℤ) (xs : List Entry) (e y : Entry) (ys : List Entry)
    → Chains b (xs ++ e ∷ y ∷ ys)
    → Chains b (xs ++ y ∷ ys)
    → e.amount ≡ pos 0
Chains-gap b [] e y ys h k =
    +ℤ_cancel (b +ℤ y.amount) e.amount (pos 0)
      (regroup b y.amount e.amount ∙ sym h.1.0 ∙ k.0 ∙ sym (+ℤ_zero (b +ℤ y.amount)))
Chains-gap b (x ∷ xs) e y ys h k = Chains-gap (b +ℤ x.amount) xs e y ys h.1 k.1

Amounts-without :
    (xs : List Entry) (e : Entry) (ys : List Entry) → Amounts (xs ++ e ∷ ys) → Amounts (xs ++ ys)
Amounts-without [] e ys h = h.1
Amounts-without (x ∷ xs) e ys h = (h.0, Amounts-without xs e ys h.1)

Accepts-at :
    (a : Account) (xs : List Entry) (e : Entry) (ys : List Entry)
    → Accepts a (xs ++ e ∷ ys)
    → IsWellFormed e
Accepts-at a [] e ys h = h.0.1
Accepts-at a (x ∷ xs) e ys h = Accepts-at a xs e ys h.1

-- A missing entry is caught: if a history replays, then it does not replay, to any account,
-- without one of its entries that another follows.
pub rebuild_detects_gap :
    (a : Account) (xs : List Entry) (e y : Entry) (ys : List Entry) {b : Account}
    → InRange a
    → Amounts (xs ++ e ∷ y ∷ ys)
    → rebuild a (xs ++ e ∷ y ∷ ys) ≡ ok b
    → (c : Account) → rebuild a (xs ++ y ∷ ys) ≢ ok c
rebuild_detects_gap a xs e y ys r h p c q =
    let full = rebuild-Replayed a (xs ++ e ∷ y ∷ ys) r h p in
    let gap = rebuild-Replayed a (xs ++ y ∷ ys) r (Amounts-without xs e (y ∷ ys) h) q in
    (Accepts-at a xs e (y ∷ ys) full.accepted).moves
      (Chains-gap a.balance xs e y ys full.chained gap.chained)

Chains-tamper :
    (b : ℤ) (xs : List Entry) (e f : Entry) (ys zs : List Entry)
    → Chains b (xs ++ e ∷ ys)
    → Chains b (xs ++ f ∷ zs)
    → (e.amount ≡ f.amount) ↔ (e.balance_after ≡ f.balance_after)
Chains-tamper b [] e f ys zs h k =
    (λ p. rw (h.0, k.0, p), λ p. +ℤ_cancel b e.amount f.amount (sym h.0 ∙ p ∙ k.0))
Chains-tamper b (x ∷ xs) e f ys zs h k = Chains-tamper (b +ℤ x.amount) xs e f ys zs h.1 k.1

-- A tampered entry is caught: if two histories with the same beginning both replay, then the next
-- entries of the two carry the same amount exactly when they carry the same stored balance. So
-- neither the amount nor the stored balance of an entry can be changed alone.
pub rebuild_detects_tampering :
    (a : Account) (xs : List Entry) (e f : Entry) (ys zs : List Entry) {b c : Account}
    → InRange a
    → Amounts (xs ++ e ∷ ys)
    → Amounts (xs ++ f ∷ zs)
    → rebuild a (xs ++ e ∷ ys) ≡ ok b
    → rebuild a (xs ++ f ∷ zs) ≡ ok c
    → (e.amount ≡ f.amount) ↔ (e.balance_after ≡ f.balance_after)
rebuild_detects_tampering a xs e f ys zs r h k p q =
    Chains-tamper a.balance xs e f ys zs (rebuild-Replayed a (xs ++ e ∷ ys) r h p).chained
      (rebuild-Replayed a (xs ++ f ∷ zs) r k q).chained

-- The index only labels errors.
rebuild_from-append :
    (n : ℕ) (a : Account) (es : List Entry) (e : Entry) {b c : Account}
    → rebuild_from n a es ≡ ok b
    → apply b e ≡ ok c
    → c.balance ≡ e.balance_after
    → rebuild_from n a (es ++ e ∷ []) ≡ ok c
unfolding rebuild_from
rebuild_from-append n a [] e {b} {c} p q s =
    let same : a ≡ b = cc in
    let applied : apply a e ≡ ok c = rw same q in rw (replay_of_ok n a e c applied s)
rebuild_from-append n a (x ∷ es) e {b} {c} p q s =
    let (next, at, rest) = >>=-ok (replay n a x) (λ next. rebuild_from (suc n) next es) p in
    rw at (rebuild_from-append (suc n) next es e rest q s)

-- Appending an entry that `Apply` accepts, with the balance that it computes, extends the replay.
pub rebuild-append :
    (a : Account) (es : List Entry) (e : Entry) {b c : Account}
    → rebuild a es ≡ ok b
    → apply b e ≡ ok c
    → c.balance ≡ e.balance_after
    → rebuild a (es ++ e ∷ []) ≡ ok c
unfolding rebuild
rebuild-append a es e p q s = rebuild_from-append 0 a es e p q s
