-- ===== src/Prelude/Table.antt =====
-- Tables as lists of rows: the first row of a test, its update, and sums over the rows.
use Prim.Native.Nat.{ℕ, ◌<◌}
use mathlib.Core.Path.{◌≡◌, refl, sym, ap, subst, ◌∙◌}
use mathlib.Core.Bool.{Bool, true, false}
use mathlib.Core.Logic.{◌≢◌, ◌⊎◌, inl, inr}
use mathlib.Core.Option.{Option, none, some}
use mathlib.Core.List.{List, [], ◌∷◌, ◌++◌}
use native.Mathlib.Omega.{arith}
use meta_pulse.Prelude.Tests.{if◌then◌else◌, Bool-cases, Option-cases}
use meta_pulse.Prelude.Lists.{All, All-In, In, here, there}
use meta_pulse.Prelude.Int.{ℤ, pos, pos_part, neg_part, ◌+ℤ◌, int_laws}

some_eq {ℓ} : {A : Type ℓ} {x y : A} → some x ≡ some y → x ≡ y
some_eq h = cc

pub In-split {ℓ} : {A : Type ℓ} (x y : A) (rows : List A) → In x (y ∷ rows) → (x ≡ y) ⊎ In x rows
In-split x y rows here = inl refl
In-split x y rows (there m) = inr m

module _ {R : Type 0} where
  unfoldable pub find_row : (R → Bool) → List R → Option R
  find_row test [] = none
  find_row test (r ∷ rows) = if test r then some r else find_row test rows

  unfoldable pub select_rows : (R → Bool) → List R → List R
  select_rows test [] = []
  select_rows test (r ∷ rows) =
      let rest = select_rows test rows in if test r then r ∷ rest else rest

  abbrev pub cons_row : R → Option (List R) → Option (List R)
  cons_row r none = none
  cons_row r (some rows) = some (r ∷ rows)

  -- `UPDATE … WHERE test`, where the test is on a unique key: `none` if no row is affected.
  unfoldable pub update_row : (R → Bool) → (R → R) → List R → Option (List R)
  update_row test change [] = none
  update_row test change (r ∷ rows) =
      let rest = update_row test change rows in
      if test r then some (change r ∷ rows) else cons_row r rest

  pub find_row-In :
      (test : R → Bool) (rows : List R) {r : R} → find_row test rows ≡ some r → In r rows
  unfolding find_row
  find_row-In test [] h = cc
  find_row-In test (x ∷ rows) {r} h = elim (Bool-cases (test x)) [
    | inl e ↦ let same : x ≡ r = some_eq (rw e at h) in subst (λ y. In y (x ∷ rows)) same here
    | inr e ↦ there (find_row-In test rows (rw e at h))
  ]

  pub find_row_holds :
      (test : R → Bool) (rows : List R) {r : R} → find_row test rows ≡ some r → test r ≡ true
  unfolding find_row
  find_row_holds test [] h = cc
  find_row_holds test (x ∷ rows) {r} h = elim (Bool-cases (test x)) [
    | inl e ↦ let same : x ≡ r = some_eq (rw e at h) in subst (λ y. test y ≡ true) same e
    | inr e ↦ find_row_holds test rows (rw e at h)
  ]

  -- One row changed, and the others in their places.
  pub record Changed (test : R → Bool) (change : R → R) (rows rows' : List R) : Type 0 where
    pub pre : List R
    pub row : R
    pub post : List R
    pub before : rows ≡ pre ++ row ∷ post
    pub after : rows' ≡ pre ++ change row ∷ post
    pub holds : test row ≡ true

  pub update_row-Changed :
      (test : R → Bool) (change : R → R) (rows : List R) {rows' : List R}
      → update_row test change rows ≡ some rows'
      → Changed test change rows rows'
  unfolding update_row
  update_row-Changed test change [] h = cc
  update_row-Changed test change (r ∷ rows) {rows'} h = elim (Bool-cases (test r)) [
    | inl e ↦ record {
      pre = [];
      row = r;
      post = rows;
      before = refl;
      after = sym (some_eq (rw e at h));
      holds = e;
    }
    | inr e ↦ elim (Option-cases (update_row test change rows)) [
      | inl n ↦ let no = rw (e, n) at h in cc
      | inr (rest, q) ↦
          let same : r ∷ rest ≡ rows' = some_eq (rw (e, q) at h) in
          let c = update_row-Changed test change rows q in
          record {
            pre = r ∷ c.pre;
            row = c.row;
            post = c.post;
            before = ap (◌∷◌ r) c.before;
            after = sym same ∙ ap (◌∷◌ r) c.after;
            holds = c.holds;
          }
    ]
  ]

  pub In-middle : (pre post : List R) (r : R) → In r (pre ++ r ∷ post)
  In-middle [] post r = here
  In-middle (x ∷ pre) post r = there (In-middle pre post r)

  -- A test that neither the row nor its change passes finds what it found.
  pub find_row-skip :
      (test : R → Bool) (change : R → R) (pre post : List R) (r : R)
      → test r ≡ false
      → test (change r) ≡ false
      → find_row test (pre ++ change r ∷ post) ≡ find_row test (pre ++ r ∷ post)
  unfolding find_row
  find_row-skip test change [] post r h k = rw (h, k) refl
  find_row-skip test change (x ∷ pre) post r h k = elim (Bool-cases (test x)) [
    | inl e ↦ rw e refl
    | inr e ↦ rw e (find_row-skip test change pre post r h k)
  ]

  module _ (id : R → ℕ) where
    -- No identity is listed twice.
    abbrev pub Unique : List R → Type 0
    Unique [] = Unit
    Unique (r ∷ rows) = All (λ x. id x ≢ id r) rows × Unique rows

    pub Unique-same :
        (rows : List R) (a b : R) → Unique rows → In a rows → In b rows → id a ≡ id b → a ≡ b
    Unique-same [] a b u m n e = elim m [ ]
    Unique-same (x ∷ rows) a b u here here e = refl
    Unique-same (x ∷ rows) a b u here (there m) e =
        elim (All-In (λ y. id y ≢ id x) u.0 m (sym e)) [ ]
    Unique-same (x ∷ rows) a b u (there m) here e = elim (All-In (λ y. id y ≢ id x) u.0 m e) [ ]
    Unique-same (x ∷ rows) a b u (there m) (there n) e = Unique-same rows a b u.1 m n e

    -- The row `r` changed, and all other rows in their places.
    pub record Moved (change : R → R) (rows rows' : List R) (r : R) : Type 0 where
      pub pre : List R
      pub post : List R
      pub before : rows ≡ pre ++ r ∷ post
      pub after : rows' ≡ pre ++ change r ∷ post

    -- An update by the identity of a row affects that row.
    pub update_row-Moved :
        (test : R → Bool) (change : R → R) (rows : List R) (r : R) {rows' : List R}
        → Unique rows
        → In r rows
        → ((x : R) → test x ≡ true → id x ≡ id r)
        → update_row test change rows ≡ some rows'
        → (test r ≡ true) × Moved change rows rows' r
    update_row-Moved test change rows r u m same q =
        let c = update_row-Changed test change rows q in
        let there_row : In c.row rows =
          subst (λ (xs : List R). In c.row xs) (sym c.before) (In-middle c.pre c.post c.row) in
        let is_r : c.row ≡ r = Unique-same rows c.row r u there_row m (same c.row c.holds) in
        (
          subst (λ x. test x ≡ true) is_r c.holds,
          record {
            pre = c.pre;
            post = c.post;
            before = c.before ∙ ap (λ x. c.pre ++ x ∷ c.post) is_r;
            after = c.after ∙ ap (λ x. c.pre ++ change x ∷ c.post) is_r;
          },
        )

    -- The row of an identity is the one that is found.
    pub find_row-Unique :
        (test : R → Bool) (rows : List R) (x : R)
        → Unique rows
        → In x rows
        → test x ≡ true
        → ((y : R) → test y ≡ true → id y ≡ id x)
        → find_row test rows ≡ some x
    unfolding find_row
    find_row-Unique test [] x u m h same = elim m [ ]
    find_row-Unique test (y ∷ rows) x u m h same = elim (Bool-cases (test y)) [
      | inl e ↦ rw e (ap some (Unique-same (y ∷ rows) y x u here m (same y e)))
      | inr e ↦ rw e (elim (In-split x y rows m) [
        | inl is_y ↦ let no : true ≡ false = sym h ∙ ap test is_y ∙ e in cc
        | inr n ↦ find_row-Unique test rows x u.1 n h same
      ])
    ]

    pub All-middle :
        (P : R → Type 0) (pre post : List R) (r s : R)
        → P s
        → All P (pre ++ r ∷ post)
        → All P (pre ++ s ∷ post)
    All-middle P [] post r s p h = (p, h.1)
    All-middle P (x ∷ pre) post r s p h = (h.0, All-middle P pre post r s p h.1)

    pub All-hit : (P : R → Type 0) (pre post : List R) (r : R) → All P (pre ++ r ∷ post) → P r
    All-hit P [] post r h = h.0
    All-hit P (x ∷ pre) post r h = All-hit P pre post r h.1

    pub Unique-middle :
        (pre post : List R) (r s : R)
        → id s ≡ id r
        → Unique (pre ++ r ∷ post)
        → Unique (pre ++ s ∷ post)
    Unique-middle [] post r s e u = (subst (λ n. All (λ x. id x ≢ n) post) (sym e) u.0, u.1)
    Unique-middle (x ∷ pre) post r s e u = (
      All-middle (λ y. id y ≢ id x) pre post r s
          (subst (λ n. n ≢ id x) (sym e) (All-hit (λ y. id y ≢ id x) pre post r u.0)) u.0,
      Unique-middle pre post r s e u.1,
    )

    pub find_row-hit :
        (test : R → Bool) (pre post : List R) (r s : R)
        → Unique (pre ++ r ∷ post)
        → find_row test (pre ++ r ∷ post) ≡ some r
        → test s ≡ true
        → find_row test (pre ++ s ∷ post) ≡ some s
    unfolding find_row
    find_row-hit test [] post r s u f h = rw h refl
    find_row-hit test (x ∷ pre) post r s u f h = elim (Bool-cases (test x)) [
      | inl e ↦
          let same : x ≡ r = some_eq (rw e at f) in
          elim (All-hit (λ y. id y ≢ id x) pre post r u.0 (ap id (sym same))) [ ]
      | inr e ↦ rw e (find_row-hit test pre post r s u.1 (rw e at f) h)
    ]

  module _ (weight : R → ℤ) where
    abbrev pub total : List R → ℤ
    total [] = pos 0
    total (r ∷ rows) = weight r +ℤ total rows

    pub total-middle :
        (pre post : List R) (r s : R)
        → total (pre ++ s ∷ post) +ℤ weight r ≡ total (pre ++ r ∷ post) +ℤ weight s
    total-middle [] post r s = omega int_laws
    total-middle (x ∷ pre) post r s =
        let rest = total-middle pre post r s in omega (int_laws, ap pos_part rest, ap neg_part rest)

    pub total-append : (rows : List R) (r : R) → total (rows ++ r ∷ []) ≡ total rows +ℤ weight r
    total-append [] r = omega int_laws
    total-append (x ∷ rows) r =
        let rest = total-append rows r in omega (int_laws, ap pos_part rest, ap neg_part rest)

module _ {R : Type 0} where
  pub find_row-append :
      (test : R → Bool) (rows : List R) (r s : R)
      → find_row test rows ≡ some s
      → find_row test (rows ++ r ∷ []) ≡ some s
  unfolding find_row
  find_row-append test [] r s h = cc
  find_row-append test (x ∷ rows) r s h = elim (Bool-cases (test x)) [
    | inl e ↦ rw e (rw e at h)
    | inr e ↦ rw e (find_row-append test rows r s (rw e at h))
  ]

  pub All-snoc :
      (P : R → Type 0) (rows : List R) (r : R) → All P rows → P r → All P (rows ++ r ∷ [])
  All-snoc P [] r h p = (p, tt)
  All-snoc P (x ∷ rows) r h p = (h.0, All-snoc P rows r h.1 p)

  pub All-map : (P Q : R → Type 0) (rows : List R) → ((x : R) → P x → Q x) → All P rows → All Q rows
  All-map P Q [] f h = tt
  All-map P Q (x ∷ rows) f h = (f x h.0, All-map P Q rows f h.1)

  pub Unique-snoc :
      (id : R → ℕ) (rows : List R) (r : R)
      → Unique id rows
      → All (λ x. id x < id r) rows
      → Unique id (rows ++ r ∷ [])
  Unique-snoc id [] r u h = (tt, tt)
  Unique-snoc id (x ∷ rows) r u h = (
    All-snoc (λ y. id y ≢ id x) rows r u.0 (λ e. omega (arith, h.0, e)),
    Unique-snoc id rows r u.1 h.1,
  )
