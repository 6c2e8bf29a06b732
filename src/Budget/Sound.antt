-- ===== src/Budget/Sound.antt =====
-- What `CanReserve` says of a budget.
use meta_pulse.Prelude.{◌≡◌, Bool, true, ◌&&◌, Bool-cases, inl, inr, arith}
use meta_pulse.Prelude.Int.{ℤ, pos, ◌+ℤ◌, ◌-ℤ◌, ◌≤ℤ◌, leb_ℤ, int_laws, -ℤ_parts}
use meta_pulse.Prelude.Word.{IsInt64, IsUint64, sub_int64, sub_int64_exact}
use meta_pulse.Budget.{Budget, limit_of, can_reserve}

-- No amount is negative, and what is reserved and settled is within the limit.
pub record IsSound (b : Budget) : Type 0 where
  pub reserved : pos 0 ≤ℤ b.reserved
  pub settled : pos 0 ≤ℤ b.settled
  pub released : pos 0 ≤ℤ b.released
  pub within : b.reserved +ℤ b.settled ≤ℤ limit_of b

sub_in_range : (a b : ℤ) → pos 0 ≤ℤ a → pos 0 ≤ℤ b → IsInt64 a → IsInt64 b → sub_int64 a b ≡ a -ℤ b
sub_in_range a b h k p q =
    sub_int64_exact a b
      (omega (arith, -ℤ_parts a b, h, k, p, q), omega (arith, -ℤ_parts a b, h, k, p, q))

-- The numbers of a budget are int64 values.
pub record IsTyped (b : Budget) : Type 0 where
  pub hard_cap : IsInt64 b.hard_cap
  pub reserved : IsInt64 b.reserved
  pub settled : IsInt64 b.settled
  pub released : IsInt64 b.released
  pub version : IsUint64 b.version

abbrev fits : ℤ → ℤ → ℤ → ℤ → ℤ → Bool
fits l a r s d =
    leb_ℤ (pos 0) l
    && leb_ℤ (pos 0) a
    && leb_ℤ (pos 0) r
    && leb_ℤ (pos 0) s
    && leb_ℤ (pos 0) d
    && leb_ℤ s l
    && leb_ℤ r (sub_int64 l s)
    && leb_ℤ a (sub_int64 (sub_int64 l s) r)

record Fits (l a r s d : ℤ) : Type 0 where
  amount : pos 0 ≤ℤ a
  reserved : pos 0 ≤ℤ r
  settled : pos 0 ≤ℤ s
  released : pos 0 ≤ℤ d
  within : r +ℤ s +ℤ a ≤ℤ l

fits-Fits :
    (l a r s d : ℤ) → IsInt64 l → IsInt64 r → IsInt64 s → fits l a r s d ≡ true → Fits l a r s d
fits-Fits l a r s d hl hr hs h =
    let c : (pos 0 ≤ℤ l)
        × (pos 0 ≤ℤ a)
        × (pos 0 ≤ℤ r)
        × (pos 0 ≤ℤ s)
        × (pos 0 ≤ℤ d)
        × (leb_ℤ r (sub_int64 l s) ≡ true)
        × (leb_ℤ a (sub_int64 (sub_int64 l s) r) ≡ true) =
      ground (arith, h) in
    let (cl, ca, cr, cs, cd, er, ea) = c in
    let first : sub_int64 l s ≡ l -ℤ s = sub_in_range l s cl cs hl hs in
    let left : r ≤ℤ l -ℤ s = ground (arith, rw first at er) in
    let second : sub_int64 (l -ℤ s) r ≡ l -ℤ s -ℤ r =
      sub_in_range (l -ℤ s) r (omega (int_laws, left, cr)) cr
        (omega (int_laws, left, cr, cs, hl, hs), omega (int_laws, left, cr, cs, hl, hs)) hr in
    let rest : a ≤ℤ l -ℤ s -ℤ r = ground (arith, rw (first, second) at ea) in
    record {
      amount = ca;
      reserved = cr;
      settled = cs;
      released = cd;
      within = omega (int_laws, rest);
    }

pub limit-IsInt64 : (b : Budget) → IsInt64 b.hard_cap → IsInt64 (limit_of b)
limit-IsInt64 b h = elim (Bool-cases b.unlimited) [
  | inl e ↦ rw e (omega arith, omega arith)
  | inr e ↦ rw e h
]

-- `CanReserve` is true only of a sound budget with room for the amount.
pub can_reserve-IsSound :
    (b : Budget) (a : ℤ)
    → IsTyped b
    → can_reserve b a ≡ true
    → IsSound b × (pos 0 ≤ℤ a) × (b.reserved +ℤ b.settled +ℤ a ≤ℤ limit_of b)
unfolding can_reserve
can_reserve-IsSound b a t h =
    let k : fits (limit_of b) a b.reserved b.settled b.released ≡ true = ground (arith, h) in
    let f =
      fits-Fits (limit_of b) a b.reserved b.settled b.released (limit-IsInt64 b t.hard_cap)
        t.reserved t.settled k in
    (
      record {
        reserved = f.reserved;
        settled = f.settled;
        released = f.released;
        within = omega (int_laws, f.within, f.amount);
      },
      f.amount,
      f.within,
    )
