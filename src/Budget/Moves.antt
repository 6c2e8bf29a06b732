-- ===== src/Budget/Moves.antt =====
-- Each move of money in a budget is exact, and keeps the budget sound.
use meta_pulse.Prelude.{
  ◌+◌, ◌≡◌, ◌==◌, sym, subst, ◌∙◌, false, ◌||◌, not, Bool-cases, inl, inr, arith,
}
use meta_pulse.Prelude.Int.{ℤ, pos, ◌+ℤ◌, ◌-ℤ◌, ◌≤ℤ◌, ◌<ℤ◌, leb_ℤ, ltb_ℤ, int_laws}
use meta_pulse.Prelude.Word.{
  IsInt64, IsUint64, max_int64, max_uint64, sub_int64, add_int64, add_uint64, sub_int64_exact,
  add_int64_exact,
}
use meta_pulse.Prelude.Result.{Result, ok}
use meta_pulse.Budget.{
  Budget, BudgetError, can_reserve, reserve_budget, settle_budget, release_budget,
}
use meta_pulse.Budget.Sound.{IsSound, IsTyped, can_reserve-IsSound, limit-IsInt64}

abbrev pub reserved_by : ℤ → Budget → Budget
reserved_by a b = record b { reserved = b.reserved +ℤ a; version = b.version + 1 }

abbrev pub settled_by : ℤ → Budget → Budget
settled_by a b = record b {
  reserved = b.reserved -ℤ a;
  settled = b.settled +ℤ a;
  version = b.version + 1;
}

abbrev pub released_by : ℤ → Budget → Budget
released_by a b = record b {
  settled = b.settled -ℤ a;
  released = b.released +ℤ a;
  version = b.version + 1;
}

next_version :
    (b : Budget)
    → IsTyped b
    → (b.version == max_uint64) ≡ false
    → add_uint64 b.version 1 ≡ b.version + 1
next_version b t h = ground (arith, t.version, h)

abbrev the_ok : Budget → Result BudgetError Budget
the_ok b = ok b

ok_eq : {x y : Budget} → the_ok x ≡ the_ok y → x ≡ y
ok_eq h = cc

typed :
    (c : Budget)
    → IsInt64 c.hard_cap
    → IsInt64 c.released
    → IsUint64 c.version
    → IsSound c
    → IsTyped c
typed c h l v s =
    let top = limit-IsInt64 c h in
    record {
      hard_cap = h;
      reserved = (
        omega (int_laws, s.reserved, s.settled, s.within, top),
        omega (int_laws, s.reserved, s.settled, s.within, top),
      );
      settled = (
        omega (int_laws, s.reserved, s.settled, s.within, top),
        omega (int_laws, s.reserved, s.settled, s.within, top),
      );
      released = l;
      version = v;
    }

next-IsUint64 :
    (b : Budget) → IsTyped b → (b.version == max_uint64) ≡ false → IsUint64 (b.version + 1)
next-IsUint64 b t h = ground (arith, t.version, h)

-- The budget after a move: sound, and of int64 values.
pub record Kept (c : Budget) : Type 0 where
  pub sound : IsSound c
  pub in_range : IsTyped c

-- A reservation adds the amount to what is reserved, within the limit.
pub reserve_budget-ok :
    (b c : Budget) (a : ℤ)
    → IsTyped b
    → reserve_budget b a ≡ ok c
    → (c ≡ reserved_by a b) × Kept c × IsSound b × (pos 0 ≤ℤ a)
unfolding reserve_budget
reserve_budget-ok b c a t h =
    elim (Bool-cases (b.id == 0 || b.version == max_uint64 || not (can_reserve b a))) [
      | inl e ↦ let no = rw e at h in cc
      | inr e ↦
          let (s, na, room) = can_reserve-IsSound b a t (ground (arith, e)) in
          let l = limit-IsInt64 b t.hard_cap in
          let sum : add_int64 b.reserved a ≡ b.reserved +ℤ a = add_int64_exact b.reserved a (
            omega (int_laws, room, s.settled, s.reserved, na, l),
            omega (int_laws, room, s.settled, s.reserved, na, l),
          ) in
          let is_c : c ≡ reserved_by a b = sym (ok_eq (rw e at h)) ∙ (λ i. record b {
            reserved = sum i;
            version = next_version b t (ground (arith, e)) i;
          }) in
          let sound : IsSound (reserved_by a b) = record {
            reserved = omega (int_laws, s.reserved, na);
            settled = s.settled;
            released = s.released;
            within = omega (int_laws, room);
          } in
          (
            is_c,
            subst Kept (sym is_c) (record {
              sound = sound;
              in_range =
                  typed (reserved_by a b) t.hard_cap t.released
                    (next-IsUint64 b t (ground (arith, e))) sound;
            }),
            s,
            na,
          )
    ]

-- A settlement moves a positive amount from what is reserved to what is settled.
pub settle_budget-ok :
    (b c : Budget) (a : ℤ)
    → IsTyped b
    → IsSound b
    → IsInt64 a
    → settle_budget b a ≡ ok c
    → (c ≡ settled_by a b) × Kept c × (pos 0 <ℤ a)
unfolding settle_budget
settle_budget-ok b c a t s k h =
    elim (Bool-cases (leb_ℤ a (pos 0) || ltb_ℤ b.reserved a || b.version == max_uint64)) [
      | inl e ↦ let no = rw e at h in cc
      | inr e ↦
          let positive : pos 0 <ℤ a = ground (arith, e) in
          let covered : a ≤ℤ b.reserved = ground (arith, e) in
          elim (Bool-cases (ltb_ℤ (sub_int64 max_int64 a) b.settled)) [
            | inl o ↦ let no = rw (e, o) at h in cc
            | inr o ↦
                let top : sub_int64 max_int64 a ≡ max_int64 -ℤ a =
                  sub_int64_exact max_int64 a
                    (omega (int_laws, positive, k), omega (int_laws, positive, k)) in
                let below : b.settled ≤ℤ max_int64 -ℤ a = ground (arith, rw top at o) in
                let less : sub_int64 b.reserved a ≡ b.reserved -ℤ a = sub_int64_exact b.reserved a (
                  omega (int_laws, positive, covered, t.reserved),
                  omega (int_laws, positive, covered, t.reserved),
                ) in
                let more : add_int64 b.settled a ≡ b.settled +ℤ a = add_int64_exact b.settled a (
                  omega (int_laws, below, s.settled, positive),
                  omega (int_laws, below, s.settled, positive),
                ) in
                let is_c : c ≡ settled_by a b = sym (ok_eq (rw (e, o) at h)) ∙ (λ i. record b {
                  reserved = less i;
                  settled = more i;
                  version = next_version b t (ground (arith, e)) i;
                }) in
                let sound : IsSound (settled_by a b) = record {
                  reserved = omega (int_laws, covered);
                  settled = omega (int_laws, s.settled, positive);
                  released = s.released;
                  within = omega (int_laws, s.within);
                } in
                (
                  is_c,
                  subst Kept (sym is_c) (record {
                    sound = sound;
                    in_range =
                        typed (settled_by a b) t.hard_cap t.released
                          (next-IsUint64 b t (ground (arith, e))) sound;
                  }),
                  positive,
                )
          ]
    ]

-- A rollback moves the amount from what is settled to what is released.
pub release_budget-ok :
    (b c : Budget) (a : ℤ)
    → IsTyped b
    → IsSound b
    → IsInt64 a
    → pos 0 ≤ℤ a
    → release_budget b a ≡ ok c
    → (c ≡ released_by a b) × Kept c
unfolding release_budget
release_budget-ok b c a t s k na h =
    elim (Bool-cases (ltb_ℤ b.settled a || b.version == max_uint64)) [
      | inl e ↦ let no = rw e at h in cc
      | inr e ↦
          let covered : a ≤ℤ b.settled = ground (arith, e) in
          elim (Bool-cases (ltb_ℤ (sub_int64 max_int64 a) b.released)) [
            | inl o ↦ let no = rw (e, o) at h in cc
            | inr o ↦
                let top : sub_int64 max_int64 a ≡ max_int64 -ℤ a =
                  sub_int64_exact max_int64 a (omega (int_laws, na, k), omega (int_laws, na, k)) in
                let below : b.released ≤ℤ max_int64 -ℤ a = ground (arith, rw top at o) in
                let less : sub_int64 b.settled a ≡ b.settled -ℤ a = sub_int64_exact b.settled a (
                  omega (int_laws, na, covered, t.settled),
                  omega (int_laws, na, covered, t.settled),
                ) in
                let more : add_int64 b.released a ≡ b.released +ℤ a = add_int64_exact b.released a (
                  omega (int_laws, below, s.released, na),
                  omega (int_laws, below, s.released, na),
                ) in
                let is_c : c ≡ released_by a b = sym (ok_eq (rw (e, o) at h)) ∙ (λ i. record b {
                  settled = less i;
                  released = more i;
                  version = next_version b t (ground (arith, e)) i;
                }) in
                let sound : IsSound (released_by a b) = record {
                  reserved = s.reserved;
                  settled = omega (int_laws, covered);
                  released = omega (int_laws, s.released, na);
                  within = omega (int_laws, s.within, na);
                } in
                (
                  is_c,
                  subst Kept (sym is_c) (record {
                    sound = sound;
                    in_range =
                        typed (released_by a b) t.hard_cap
                          (
                            omega (int_laws, below, s.released, na),
                            omega (int_laws, below, s.released, na),
                          )
                          (next-IsUint64 b t (ground (arith, e))) sound;
                  }),
                )
          ]
    ]
