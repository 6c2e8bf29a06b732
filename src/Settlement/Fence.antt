-- ===== src/Settlement/Fence.antt =====
-- The attempt count of an outbox row is a fence: a claim raises it, and an outcome that was
-- computed under an earlier claim is refused.
use meta_pulse.Prelude.{
  ℕ, ◌+◌, ◌==◌, ltb, ◌≡◌, ◌<◌, ◌≤◌, refl, sym, ap, subst, ◌∙◌, Bool, true, ◌&&◌, ◌||◌, not,
  Bool-cases, Option-cases, inl, inr, none, some, List, [], ◌∷◌, ◌++◌, In, arith,
}
use meta_pulse.Prelude.Text.{text_eq}
use meta_pulse.Prelude.Result.{ok, err}
use meta_pulse.Prelude.Tx.{Ensures, Ensures-after, Ensures-at, after, done}
use meta_pulse.Prelude.Table.{
  In-split, find_row, find_row-In, find_row_holds, find_row-hit, find_row-skip, find_row-Unique,
  Changed, update_row, update_row-Changed, select_rows, Unique, Unique-same, Unique-middle,
  In-middle,
}
use meta_pulse.RewardStore.{
  Outbox, Db, Tx, Call, StoreError, conflict, not_found, infrastructure, guarded, leased,
  max_uint32, is_fenced, with_outcome, is_outbox_update, is_due, take, lease_rows, claim_due,
  save_outbox,
}
use meta_pulse.RewardAccounts.Effects.{guarded-Ensures}

abbrev pub outbox_id : Outbox → ℕ
outbox_id o = o.id

abbrev is_row : ℕ → Outbox → Bool
is_row id o = o.id == id

-- The row of an identity has been claimed at least so often.
abbrev AtLeast : ℕ → ℕ → List Outbox → Type 0
AtLeast id n rows = (x : Outbox) × (find_row (is_row id) rows ≡ some x) × (n ≤ x.attempts)

row_id : (id : ℕ) (x : Outbox) → is_row id x ≡ true → x.id ≡ id
row_id id x h = ground (arith, h)

module _ (rows rows' : List Outbox) (test : Outbox → Bool) (until n : ℕ)
    (ids : Unique outbox_id rows) (written : update_row test (leased until n) rows ≡ some rows')
    (below : (x : Outbox) → test x ≡ true → x.attempts ≤ n) where
  change : Changed test (leased until n) rows rows'
  change = update_row-Changed test (leased until n) rows written

  there_row : In change.row rows
  there_row =
      subst (λ (xs : List Outbox). In change.row xs) (sym change.before)
        (In-middle change.pre change.post change.row)

  split_ids : Unique outbox_id (change.pre ++ change.row ∷ change.post)
  split_ids = subst (λ (xs : List Outbox). Unique outbox_id xs) change.before ids

  leased-Unique : Unique outbox_id rows'
  leased-Unique =
      subst (λ (xs : List Outbox). Unique outbox_id xs) (sym change.after)
        (Unique-middle outbox_id change.pre change.post change.row (leased until n change.row) refl
          split_ids)

  -- The leased row, under its identity.
  leased_found :
      (id : ℕ)
      → is_row id change.row ≡ true
      → find_row (is_row id) rows' ≡ some (leased until n change.row)
  leased_found id h =
      let old =
        find_row-Unique outbox_id (is_row id) rows change.row ids there_row h
          (λ y e. row_id id y e ∙ sym (row_id id change.row h)) in
      ap (find_row (is_row id)) change.after
      ∙ find_row-hit outbox_id (is_row id) change.pre change.post change.row
          (leased until n change.row) split_ids
          (ap (find_row (is_row id)) (sym change.before) ∙ old) h

  -- The row of an identity that the update affects is the one that it affects.
  leased_same :
      (id : ℕ) (x : Outbox)
      → is_row id change.row ≡ true
      → find_row (is_row id) rows ≡ some x
      → x ≡ change.row
  leased_same id x h f =
      Unique-same outbox_id rows x change.row ids (find_row-In (is_row id) rows f) there_row
        (row_id id x (find_row_holds (is_row id) rows f) ∙ sym (row_id id change.row h))

  leased-AtLeast : (id m : ℕ) → AtLeast id m rows → AtLeast id m rows'
  leased-AtLeast id m (x, f, le) = elim (Bool-cases (is_row id change.row)) [
    | inl h ↦
        let is_x = leased_same id x h f in
        (
          leased until n change.row,
          leased_found id h,
          omega (arith, le, ap (λ (r : Outbox). r.attempts) is_x, below change.row change.holds),
        )
    | inr h ↦ (
      x,
      ap (find_row (is_row id)) change.after
          ∙ find_row-skip (is_row id) (leased until n) change.pre change.post change.row h h
          ∙ ap (find_row (is_row id)) (sym change.before)
          ∙ f,
      le,
    )
  ]

-- What a claim leaves: unique rows, no count lower than before, those of the claim as high as it
-- says, and higher than before the claim.
record Leased (before : List Outbox) (claimed : List Outbox) (d : Db) : Type 0 where
  unique : Unique outbox_id d.outboxes
  kept : (id m : ℕ) → AtLeast id m before → AtLeast id m d.outboxes
  fenced : (c : Outbox) → In c claimed → AtLeast c.id c.attempts d.outboxes
  raised : (c : Outbox) → In c claimed → (m : ℕ) → AtLeast c.id m before → m < c.attempts

abbrev is_selected : Outbox → Outbox → Bool
is_selected r x = x.id == r.id && text_eq x.status r.status && x.attempts == r.attempts

selected_id : (r x : Outbox) → is_selected r x ≡ true → is_row r.id x ≡ true
selected_id r x h = ground (arith, h)

selected_attempts : (r x : Outbox) → is_selected r x ≡ true → x.attempts ≡ r.attempts
selected_attempts r x h = ground (arith, h)

module _ (fails : Call → Bool) (until : ℕ) where
  lease_rows-Leased :
      (rows : List Outbox) (db : Db)
      → Unique outbox_id db.outboxes
      → Ensures (Leased db.outboxes) (lease_rows fails until rows db)
  unfolding lease_rows
  lease_rows-Leased [] db u = record {
    unique = u;
    kept = λ id m h. h;
    fenced = λ c m. elim m [ ];
    raised = λ c m. elim m [ ];
  }
  lease_rows-Leased (r ∷ rows) db u = elim (Bool-cases (r.attempts == max_uint32)) [
    | inl e ↦ rw e tt
    | inr e ↦ elim (Bool-cases (fails Call.lease_due)) [
      | inl down ↦ rw (e, down) tt
      | inr up ↦
          elim (Option-cases
            (update_row (is_selected r) (leased until (r.attempts + 1)) db.outboxes)) [
              | inl n ↦ rw (e, up, n) tt
              | inr (written, q) ↦
                  rw (e, up, q)
                    (both written q
                      (λ v. lease_rows-Leased rows (record db { outboxes = written }) v))
            ]
    ]
  ]
    where
      both :
          (written : List Outbox)
          → update_row (is_selected r) (leased until (r.attempts + 1)) db.outboxes ≡ some written
          → (Unique outbox_id written
              → Ensures
                  (Leased written)
                  (lease_rows fails until rows (record db { outboxes = written })))
          → Ensures (Leased db.outboxes) (
              after
                (lease_rows fails until rows (record db { outboxes = written }))
                (λ rest. done (leased until (r.attempts + 1) r ∷ rest)))
      both written q others =
          let below : (x : Outbox) → is_selected r x ≡ true → x.attempts ≤ r.attempts + 1 =
            λ x h. ground (arith, h) in
          let c = change db.outboxes written (is_selected r) until (r.attempts + 1) u q below in
          let first =
            leased_found db.outboxes written (is_selected r) until (r.attempts + 1) u q below r.id
              (ground (arith, c.holds)) in
          Ensures-after (Leased written) (Leased db.outboxes)
            (lease_rows fails until rows (record db { outboxes = written })) _
            (others
              (leased-Unique db.outboxes written (is_selected r) until (r.attempts + 1) u q below))
            (λ rest d l. record {
              unique = l.unique;
              kept = λ id m h. l.kept id m (
                  leased-AtLeast db.outboxes written (is_selected r) until (r.attempts + 1) u q
                    below id m h);
              fenced = λ x m. elim (In-split x (leased until (r.attempts + 1) r) rest m) [
                | inl is_r ↦
                    subst (λ (y : Outbox). AtLeast y.id y.attempts d.outboxes) (sym is_r)
                      (l.kept r.id (r.attempts + 1)
                        (leased until (r.attempts + 1) c.row, first, omega arith))
                | inr n ↦ l.fenced x n
              ];
              raised = λ x m n before. elim (In-split x (leased until (r.attempts + 1) r) rest m) [
                | inl is_r ↦
                    let (y, f, le) =
                      subst (λ (y : Outbox). AtLeast y.id n db.outboxes) is_r before in
                    let is_c =
                      leased_same db.outboxes written (is_selected r) until (r.attempts + 1) u q
                        below r.id y (selected_id r c.row c.holds) f in
                    omega (
                      arith,
                      le,
                      ap (λ (z : Outbox). z.attempts) is_c,
                      selected_attempts r c.row c.holds,
                      ap (λ (z : Outbox). z.attempts) is_r,
                    )
                | inr later ↦ l.raised x later n (
                    leased-AtLeast db.outboxes written (is_selected r) until (r.attempts + 1) u q
                      below x.id n before)
              ];
            })

  claim_due-Leased :
      (locked : Outbox → Bool) (now limit : ℕ) (db : Db)
      → Unique outbox_id db.outboxes
      → Ensures (Leased db.outboxes) (claim_due fails locked now limit until db)
  unfolding claim_due
  claim_due-Leased locked now limit db u = elim (Bool-cases (limit == 0 || ltb 5000 limit)) [
    | inl e ↦ rw e tt
    | inr e ↦ elim (Bool-cases (now == 0 || not (ltb now until))) [
      | inl n ↦ rw (e, n) tt
      | inr n ↦
          rw (e, n)
            (Ensures-after (λ _ d. d ≡ db) (Leased db.outboxes)
              (guarded fails Call.select_due selected db) (lease_rows fails until)
              (guarded-Ensures fails (λ _ d. d ≡ db) Call.select_due selected db refl)
              (λ rows d same.
                subst (λ x. Ensures (Leased db.outboxes) (lease_rows fails until rows x)) (sym same)
                  (lease_rows-Leased rows db u)))
    ]
  ]
    where
      selected : Tx (List Outbox)
      selected x =
          (ok (take limit (select_rows (λ r. is_due now r && not (locked r)) x.outboxes)), x)

-- The outcome is refused, and nothing is written.
abbrev pub IsRefused : {T : Type 0} → Tx T → Db → Type 0
IsRefused m d = (e : StoreError) × (m d ≡ (err e, d))

unfenced :
    (o : Outbox) (rows : List Outbox)
    → Unique outbox_id rows
    → (n : ℕ) → AtLeast o.id n rows
    → o.attempts < n
    → update_row (is_fenced o) (with_outcome o) rows ≡ none
unfenced o rows u n (x, f, le) stale =
    elim (Option-cases (update_row (is_fenced o) (with_outcome o) rows)) [
      | inl q ↦ q
      | inr (written, q) ↦
          let c = update_row-Changed (is_fenced o) (with_outcome o) rows q in
          let there_c : In c.row rows =
            subst (λ (xs : List Outbox). In c.row xs) (sym c.before)
              (In-middle c.pre c.post c.row) in
          let is_x : c.row ≡ x =
            Unique-same outbox_id rows c.row x u there_c (find_row-In (is_row o.id) rows f)
              (id_of c.row c.holds ∙ sym (row_id o.id x (find_row_holds (is_row o.id) rows f))) in
          let no : ◌≡◌ {A = ℕ} 0 1 =
            omega (arith, le, lower x (subst (λ r. is_fenced o r ≡ true) is_x c.holds)) in
          cc
    ]
  where
    id_of : (r : Outbox) → is_fenced o r ≡ true → r.id ≡ o.id
    id_of r h = ground (arith, h)

    lower : (r : Outbox) → is_fenced o r ≡ true → r.attempts < n
    lower r h = ground (arith, h, stale)

save_outbox-IsRefused :
    (fails : Call → Bool) (o : Outbox) (d : Db)
    → update_row (is_fenced o) (with_outcome o) d.outboxes ≡ none
    → IsRefused (save_outbox fails o) d
unfolding save_outbox
save_outbox-IsRefused fails o d q = elim (Bool-cases (is_outbox_update o)) [
  | inr e ↦ (conflict, rw e refl)
  | inl e ↦ elim (Bool-cases (fails Call.write_outbox)) [
    | inl down ↦ (infrastructure, rw (e, down) refl)
    | inr up ↦ (not_found, rw (e, up, q) refl)
  ]
]

-- Once `ClaimDue` has leased a row, its attempt count is higher than before, and an outcome for the
-- row that carries the earlier count or a lower one, which some worker may hold from an earlier
-- claim, is refused and writes nothing. Outbox rows have distinct ids.
pub claim_due_fences :
    (fails later_fails : Call → Bool) (locked : Outbox → Bool) (now limit until : ℕ) (db d : Db)
    (claimed : List Outbox) (before c stale : Outbox)
    → Unique outbox_id db.outboxes
    → find_row (λ o. o.id == c.id) db.outboxes ≡ some before
    → claim_due fails locked now limit until db ≡ (ok claimed, d)
    → In c claimed
    → stale.id ≡ c.id
    → stale.attempts ≤ before.attempts
    → (before.attempts < c.attempts) × IsRefused (save_outbox later_fails stale) d
claim_due_fences fails later_fails locked now limit until db d claimed before c stale u f q m same
      lower =
    let l =
      Ensures-at (Leased db.outboxes) q (claim_due-Leased fails until locked now limit db u) in
    let higher : before.attempts < c.attempts =
      l.raised c m before.attempts (before, f, omega arith) in
    (
      higher,
      save_outbox-IsRefused later_fails stale d (
          unfenced stale d.outboxes l.unique c.attempts
            (subst (λ n. AtLeast n c.attempts d.outboxes) (sym same) (l.fenced c m))
            (omega (arith, lower, higher))),
    )
