-- ===== src/Idempotency/Kept.antt =====
-- A stored response is final: no later call changes it, and every later look returns it.
use meta_pulse.Prelude.{
  ◌≡◌, refl, sym, ap, ◌∙◌, Bool, true, false, ◌&&◌, Bool-cases, Option-cases, inl, inr, Option,
  none, some, String, List, [], ◌∷◌, ◌++◌, arith,
}
use meta_pulse.Prelude.Text.{text_eq}
use meta_pulse.Prelude.Result.{ok}
use meta_pulse.Prelude.Tx.{Ensures, Ensures-at}
use meta_pulse.Prelude.Table.{find_row, find_row-append, update_row, update_row-Changed}
use meta_pulse.RewardStore.{Codec}
use meta_pulse.Idempotency.{
  Request, Requests, RequestCall, lock_guard, ensure_row, lock_row, save_row, is_request,
  is_request_save, is_identity, is_unanswered, with_response, is_open_request, ensured, new_request,
  lock_request, get_or_create_request, save_response,
}

-- The row of the request, with a response.
pub record IsAnswered (r : Request) (db : Requests) : Type 0 where
  pub held : find_row (is_request r.scope r.key) db.rows ≡ some r
  pub answered : is_open_request r.response_status ≡ false

-- Any calls on the table, by any transactions.
pub data History : Requests → Requests → Type 0 where
  start : {db : Requests} → History db db
  looks :
      {db d : Requests} (fails : RequestCall → Bool) (scope key hash : String)
      → History db d
      → History db (get_or_create_request fails scope key hash d).1
  saves :
      {db d : Requests} (fails : RequestCall → Bool) (k : Codec) (q : Request)
      → History db d
      → History db (save_response fails k q d).1

some_eq {ℓ} : {A : Type ℓ} {x y : A} → some x ≡ some y → x ≡ y
some_eq h = cc

-- A row that is changed in its place, and is not the one that was found.
find_row-beside :
    {R : Type 0} (test : R → Bool) (pre post : List R) (row row' r : R)
    → test row' ≡ test row
    → (open_ : R → Bool) → open_ row ≡ true
    → open_ r ≡ false
    → find_row test (pre ++ row ∷ post) ≡ some r
    → find_row test (pre ++ row' ∷ post) ≡ some r
unfolding find_row
find_row-beside test [] post row row' r s open_ a b f = elim (Bool-cases (test row)) [
  | inl e ↦
      let same : row ≡ r = some_eq (rw e at f) in
      let no : true ≡ false = sym a ∙ ap open_ same ∙ b in cc
  | inr e ↦ rw (s, e) (rw e at f)
]
find_row-beside test (x ∷ pre) post row row' r s open_ a b f = elim (Bool-cases (test x)) [
  | inl e ↦ rw e (rw e at f)
  | inr e ↦ rw e (find_row-beside test pre post row row' r s open_ a b (rw e at f))
]

ensured-IsAnswered :
    (r : Request) (scope key hash : String) (o : Option Request) (db : Requests)
    → IsAnswered r db
    → IsAnswered r (ensured scope key hash o db)
ensured-IsAnswered r scope key hash none db h = record {
  held =
      find_row-append (is_request r.scope r.key) db.rows (new_request db scope key hash) r h.held;
  answered = h.answered;
}
ensured-IsAnswered r scope key hash (some x) db h = h

open_of : (q x : Request) → is_unanswered q x ≡ true → is_open_request x.response_status ≡ true
open_of q x h = ground (arith, h)

module _ (fails : RequestCall → Bool) (r : Request) where
  locked-IsAnswered :
      (c : RequestCall) (scope key : String) (db : Requests)
      → IsAnswered r db
      → IsAnswered r (lock_request fails c scope key db).1
  locked-IsAnswered c scope key db h = elim (Bool-cases (fails c)) [
    | inl e ↦ rw e h
    | inr e ↦ elim (Option-cases (find_row (is_request scope key) db.rows)) [
      | inl n ↦ rw (e, n) h
      | inr (x, q) ↦ rw (e, q) h
    ]
  ]

  looked-IsAnswered :
      (scope key hash : String) (db : Requests)
      → IsAnswered r db
      → IsAnswered r (get_or_create_request fails scope key hash db).1
  unfolding get_or_create_request
  looked-IsAnswered scope key hash db h = elim (Bool-cases (is_identity scope key hash)) [
    | inr e ↦ rw e h
    | inl e ↦ elim (Bool-cases (text_eq scope "period_create_lock" && text_eq key "global")) [
      | inl g ↦ rw (e, g) (locked-IsAnswered lock_guard scope key db h)
      | inr g ↦ elim (Bool-cases (fails ensure_row)) [
        | inl down ↦ rw (e, g, down) h
        | inr up ↦
            let o = find_row (is_request scope key) db.rows in
            rw (e, g, up)
              (locked-IsAnswered lock_row scope key (ensured scope key hash o db)
                (ensured-IsAnswered r scope key hash o db h))
      ]
    ]
  ]

  saved-IsAnswered :
      (k : Codec) (q : Request) (db : Requests)
      → IsAnswered r db
      → IsAnswered r (save_response fails k q db).1
  unfolding save_response
  saved-IsAnswered k q db h = elim (Bool-cases (is_request_save k q)) [
    | inr e ↦ rw e h
    | inl e ↦ elim (Bool-cases (fails save_row)) [
      | inl down ↦ rw (e, down) h
      | inr up ↦ elim (Option-cases (update_row (is_unanswered q) (with_response k q) db.rows)) [
        | inl n ↦ rw (e, up, n) h
        | inr (rows, u) ↦
            let c = update_row-Changed (is_unanswered q) (with_response k q) db.rows u in
            rw (e, up, u)
              (record {
                held =
                    ap (find_row (is_request r.scope r.key)) c.after
                    ∙ find_row-beside (is_request r.scope r.key) c.pre c.post c.row
                        (with_response k q c.row) r refl (λ x. is_open_request x.response_status)
                        (open_of q c.row c.holds) h.answered
                        (ap (find_row (is_request r.scope r.key)) (sym c.before) ∙ h.held);
                answered = h.answered;
              })
      ]
    ]
  ]

kept-IsAnswered : {db d : Requests} (r : Request) → History db d → IsAnswered r db → IsAnswered r d
kept-IsAnswered r start h = h
kept-IsAnswered r (looks {d = d} fails scope key hash past) h =
    looked-IsAnswered fails r scope key hash d (kept-IsAnswered r past h)
kept-IsAnswered r (saves {d = d} fails k q past) h =
    saved-IsAnswered fails r k q d (kept-IsAnswered r past h)

locked_answer :
    (fails : RequestCall → Bool) (c : RequestCall) (r : Request) (db : Requests)
    → IsAnswered r db
    → Ensures (λ x _. x ≡ r) (lock_request fails c r.scope r.key db)
locked_answer fails c r db h = elim (Bool-cases (fails c)) [
  | inl e ↦ rw e tt
  | inr e ↦ rw (e, h.held) refl
]

looked_answer :
    (fails : RequestCall → Bool) (hash : String) (r : Request) (db : Requests)
    → IsAnswered r db
    → Ensures (λ x _. x ≡ r) (get_or_create_request fails r.scope r.key hash db)
unfolding get_or_create_request
looked_answer fails hash r db h = elim (Bool-cases (is_identity r.scope r.key hash)) [
  | inr e ↦ rw e tt
  | inl e ↦ elim (Bool-cases (text_eq r.scope "period_create_lock" && text_eq r.key "global")) [
    | inl g ↦ rw (e, g) (locked_answer fails lock_guard r db h)
    | inr g ↦ elim (Bool-cases (fails ensure_row)) [
      | inl down ↦ rw (e, g, down) tt
      | inr up ↦ rw (e, g, up, h.held) (locked_answer fails lock_row r db h)
    ]
  ]
]

-- Once a request's row holds a response, every later look under its scope and key that returns a
-- record returns that very record, whatever looks and saves, of this request and of others and with
-- any failures, come between, and whatever payload hash the look brings.
pub response_replays :
    {db d e : Requests} (fails : RequestCall → Bool) (hash : String) (r x : Request)
    → IsAnswered r db
    → History db d
    → get_or_create_request fails r.scope r.key hash d ≡ (ok x, e)
    → x ≡ r
response_replays {d = d} fails hash r x h past q =
    Ensures-at (λ y _. y ≡ r) q (looked_answer fails hash r d (kept-IsAnswered r past h))
