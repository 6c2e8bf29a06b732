-- ===== src/Money/Bounds.antt =====
-- Checked addition, subtraction and scaling (`Milli.Add`, `Milli.Sub`, `Milli.MultiplyBps` of
-- services/pulse/internal/domain/money/money.go) against exact integer arithmetic.
use native.Mathlib.Nat.{zero-div, zero-mul, mul-le-mul_left}
use meta_pulse.Prelude.{
  ℕ, suc, ◌+◌, ◌*◌, ◌/◌, ◌≡◌, ◌≢◌, ◌≤◌, ◌<◌, refl, sym, ◌⊎◌, inl, inr, arith, Bool-cases,
}
use meta_pulse.Prelude.Int.{
  ℤ, pos, negsuc, pos_part, neg_part, ◌+ℤ◌, ◌-ℤ◌, ◌≤ℤ◌, ◌<ℤ◌, int_laws, +ℤ_parts, -ℤ_parts, eqb_ℤ,
  eq_of_parts, one_sign,
}
use meta_pulse.Prelude.Word.{
  IsInt64, min_int64, max_int64, sub_int64, add_int64_exact, sub_int64_exact,
}
use meta_pulse.Prelude.Result.{Result, ok, err}
use meta_pulse.Money.{
  MoneyError, overflow, invalid_bps, add, sub, validate_bps, multiply_bps, max_bps, bps_one, quo,
  times,
}

-- `maxMilli - other` and `minMilli - other` do not wrap where `Add` computes them.
pub max_room : (b : ℤ) → IsInt64 b → pos 0 <ℤ b → sub_int64 max_int64 b ≡ max_int64 -ℤ b
max_room b h p = sub_int64_exact max_int64 b (omega int_laws)

pub min_room : (b : ℤ) → IsInt64 b → b <ℤ pos 0 → sub_int64 min_int64 b ≡ min_int64 -ℤ b
min_room b h p = sub_int64_exact min_int64 b (omega int_laws)

neg_range : (b : ℤ) → IsInt64 b → b ≢ min_int64 → IsInt64 (pos 0 -ℤ b)
neg_range b h p = ground (arith, eq_of_parts b min_int64, -ℤ_parts (pos 0) b)

-- The result is the exact integer where an int64 holds it, and the overflow error where none does.
abbrev pub IsChecked : ℤ → Result MoneyError ℤ → Type 0
IsChecked exact r = (IsInt64 exact × (r ≡ ok exact)) ⊎ (¬ IsInt64 exact × (r ≡ err overflow))

pub add_exact :
    (m other : ℤ) → IsInt64 m → IsInt64 other → IsInt64 (m +ℤ other) → add m other ≡ ok (m +ℤ other)
unfolding add
add_exact m other hm ho h = ground (
  arith,
  max_room other ho,
  min_room other ho,
  -ℤ_parts max_int64 other,
  -ℤ_parts min_int64 other,
  +ℤ_parts m other,
  add_int64_exact m other h,
)

add_overflow :
    (m other : ℤ) → IsInt64 m → IsInt64 other → ¬ IsInt64 (m +ℤ other) → add m other ≡ err overflow
unfolding add
add_overflow m other hm ho h = ground (
  arith,
  max_room other ho,
  min_room other ho,
  -ℤ_parts max_int64 other,
  -ℤ_parts min_int64 other,
  +ℤ_parts m other,
)

IsInt64-cases : (a : ℤ) → IsInt64 a ⊎ (¬ IsInt64 a)
IsInt64-cases a = ground arith

-- For all int64 operands `Add` returns the exact sum if an int64 holds it, and `ErrOverflow` if
-- none does.
pub add-IsChecked : (m other : ℤ) → IsInt64 m → IsInt64 other → IsChecked (m +ℤ other) (add m other)
add-IsChecked m other hm ho = elim (IsInt64-cases (m +ℤ other)) [
  | inl h ↦ inl (h, add_exact m other hm ho h)
  | inr h ↦ inr (h, add_overflow m other hm ho h)
]

-- For all int64 operands `Sub` returns the exact difference if an int64 holds it, and
-- `ErrOverflow` if none does; `other` may be the least int64, which has no negation.
pub sub-IsChecked : (m other : ℤ) → IsInt64 m → IsInt64 other → IsChecked (m -ℤ other) (sub m other)
unfolding sub
sub-IsChecked m other hm ho = elim (Bool-cases (eqb_ℤ other min_int64)) [
  | inl e ↦ rw e (ground (arith, -ℤ_parts m other, sub_int64_exact m other))
  | inr e ↦
      let least : other ≢ min_int64 = ground arith in
      let same : m +ℤ (pos 0 -ℤ other) ≡ m -ℤ other = omega int_laws in
      rw (e, sub_int64_exact (pos 0) other (neg_range other ho least), ← same)
        (add-IsChecked m (pos 0 -ℤ other) hm (neg_range other ho least))
]

-- The magnitude of an integer.
abbrev pub magnitude : ℤ → ℕ
magnitude a = pos_part a + neg_part a

times_parts :
    (m : ℤ) (k : ℕ)
    → (pos_part (times m k) ≡ pos_part m * k) × (neg_part (times m k) ≡ neg_part m * k)
unfolding times
times_parts (pos n) k = (refl, omega arith)
times_parts (negsuc n) k =
    ground (arith, -ℤ_parts (pos 0) (pos (suc n * k)), one_sign (pos 0 -ℤ pos (suc n * k)))

quo_parts :
    (m : ℤ) (d : ℕ) → (pos_part (quo m d) ≡ pos_part m / d) × (neg_part (quo m d) ≡ neg_part m / d)
unfolding quo
quo_parts (pos n) d = (refl, sym (zero-div d))
quo_parts (negsuc n) d =
    ground (arith, -ℤ_parts (pos 0) (pos (suc n / d)), one_sign (pos 0 -ℤ pos (suc n / d)))

scaled_parts :
    (m : ℤ) (k : ℕ)
    → (pos_part (quo (times m k) bps_one) ≡ pos_part m * k / bps_one)
      × (neg_part (quo (times m k) bps_one) ≡ neg_part m * k / bps_one)
scaled_parts m k =
    let (p, n) = quo_parts (times m k) bps_one in
    let (tp, tn) = times_parts m k in (rw (p, tp), rw (n, tn))

-- `q` is `m * multiplier / 10000` truncated toward zero: it has the sign of the product, and
-- `|q| * 10000 ≤ |m * multiplier| < (|q| + 1) * 10000`.
pub record IsTruncated (m : ℤ) (k : ℕ) (q : ℤ) : Type 0 where
  pub sign_pos : pos_part m ≡ 0 → pos_part q ≡ 0
  pub sign_neg : neg_part m ≡ 0 → neg_part q ≡ 0
  pub below : magnitude q * bps_one ≤ magnitude m * k
  pub above : magnitude m * k < (magnitude q + 1) * bps_one

scaled-IsTruncated : (m : ℤ) (k : ℕ) → IsTruncated m k (quo (times m k) bps_one)
scaled-IsTruncated m k =
    let (p, n) = scaled_parts m k in
    let p0 : pos_part m ≡ 0 → pos_part m * k ≡ 0 = λ e. rw (e, zero-mul) in
    let n0 : neg_part m ≡ 0 → neg_part m * k ≡ 0 = λ e. rw (e, zero-mul) in
    elim (one_sign m) [
      | inl e ↦
          let z = p0 e in
          record {
            sign_pos = λ h. omega arith;
            sign_neg = λ h. let z' = n0 h in omega arith;
            below = omega arith;
            above = omega arith;
          }
      | inr e ↦
          let z = n0 e in
          record {
            sign_pos = λ h. let z' = p0 h in omega arith;
            sign_neg = λ h. omega arith;
            below = omega arith;
            above = omega arith;
          }
    ]

-- For a multiplier between 0 and 1000000 basis points `MultiplyBps` returns the product over 10000
-- truncated toward zero if an int64 holds it, and `ErrOverflow` if none does.
pub multiply_bps-IsChecked :
    (m multiplier : ℤ)
    → pos 0 ≤ℤ multiplier
    → multiplier ≤ℤ max_bps
    → (q : ℤ) × IsTruncated m (pos_part multiplier) q × IsChecked q (multiply_bps m multiplier)
unfolding multiply_bps validate_bps
multiply_bps-IsChecked m multiplier lo hi =
    let k = pos_part multiplier in
    (
      quo (times m k) bps_one,
      scaled-IsTruncated m k,
      ground (arith, one_sign (quo (times m k) bps_one)),
    )

-- Every other multiplier is refused, whatever the amount.
pub multiply_bps_invalid :
    (m multiplier : ℤ)
    → (multiplier <ℤ pos 0) ⊎ (max_bps <ℤ multiplier)
    → multiply_bps m multiplier ≡ err invalid_bps
unfolding multiply_bps validate_bps
multiply_bps_invalid m multiplier h = ground arith

scaled_small :
    (m : ℤ) (k : ℕ) (q : ℤ)
    → IsTruncated m k q
    → k ≤ bps_one
    → IsInt64 m
    → (magnitude q ≤ magnitude m) × IsInt64 q
scaled_small m k q t h hm =
    let le : magnitude m * k ≤ magnitude m * bps_one = mul-le-mul_left (magnitude m) h in
    let small : magnitude q ≤ magnitude m = omega (arith, t.below) in
    (small, grind (arith, t.sign_pos, t.sign_neg, one_sign m, one_sign q))

-- A multiplier of at most 1.00x never overflows, and never raises the magnitude.
pub multiply_bps_shrinks :
    (m multiplier : ℤ)
    → IsInt64 m
    → pos 0 ≤ℤ multiplier
    → multiplier ≤ℤ pos bps_one
    → (q : ℤ) × (multiply_bps m multiplier ≡ ok q) × (magnitude q ≤ magnitude m)
multiply_bps_shrinks m multiplier hm lo hi =
    let (q, t, c) = multiply_bps-IsChecked m multiplier lo (omega arith) in
    let (small, fits) =
      scaled_small m (pos_part multiplier) q t (omega (arith, one_sign multiplier)) hm in
    elim c [ inl (h, e) ↦ (q, e, small) | inr (h, e) ↦ absurd (h fits) ]
