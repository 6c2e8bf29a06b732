-- ===== src/Settlement/Backoff.antt =====
-- The delay doubles with each attempt up to its maximum.
use meta_pulse.Prelude.{
  ℕ, zero, suc, ◌+◌, ◌≡◌, ◌≤◌, ◌<◌, ◌*◌, ◌/◌, ◌-◌, sym, ap, ◌∙◌, true, false, Bool-cases, inl, inr,
  arith, ltb, if◌then◌else◌,
}
use meta_pulse.Prelude.Int.{pos, ◌+ℤ◌, ltb_ℤ}
use meta_pulse.Prelude.Word.{two63, add_int64, add_int64_exact}
use meta_pulse.Settlement.{cap, delay, backoff}

abbrev pub pow2 : ℕ → ℕ
pow2 zero = 1
pow2 (suc n) = 2 * pow2 n

-- The lesser of two numbers.
abbrev pub least : ℕ → ℕ → ℕ
least a b = if ltb a b then a else b

twice : (r n : ℕ) → (r + r) * pow2 n ≡ r * pow2 (suc n)
twice r n = omega arith

grows : (r n : ℕ) → r ≤ r * pow2 n
grows r zero = omega arith
grows r (suc n) = omega (arith, grows r n)

sum_pos : (r : ℕ) → pos r +ℤ pos r ≡ pos (r + r)
unfolding ◌+ℤ◌
sum_pos r = ground arith

-- Below half of an int64 maximum a doubling does not wrap around.
double_fits :
    (max r : ℕ) → max < two63 → ltb (max / 2) r ≡ false → add_int64 (pos r) (pos r) ≡ pos (r + r)
double_fits max r k h =
    let small : r + r < two63 = ground (arith, h) in
    add_int64_exact (pos r) (pos r) (rw (sum_pos r) (omega (arith, small), omega arith)) ∙ sum_pos r

past_half : (max r n : ℕ) → ltb (max / 2) r ≡ true → max < r * pow2 (suc n)
past_half max r n h = let half : max / 2 < r = ground (arith, h) in omega (arith, grows r n, half)

reached : (max r : ℕ) → max ≤ r → least max r ≡ max
reached max r h = ground (arith, h)

test_pos : (a b : ℕ) → ltb_ℤ (pos a) (pos b) ≡ ltb a b
test_pos a b = ground arith

cap_pos : (max r : ℕ) → cap (pos max) (pos r) ≡ pos (least max r)
cap_pos max r = ground arith

-- The loop returns the result doubled in each round, or the maximum if that is less.
delay_lem :
    (max rounds result : ℕ)
    → result ≤ max
    → max < two63
    → delay (pos max) rounds (pos result) ≡ pos (least max (result * pow2 rounds))
unfolding delay
delay_lem max zero result h k = ground arith
delay_lem max (suc n) result h k = elim (Bool-cases (ltb result max)) [
  | inr e ↦
      let full : max ≤ result = ground (arith, e) in
      let more : max ≤ result * pow2 (suc n) = omega (arith, full, grows result (suc n)) in
      rw (test_pos result max, e)
        (cap_pos max result
          ∙ ap pos (reached max result full ∙ sym (reached max (result * pow2 (suc n)) more)))
  | inl e ↦ elim (Bool-cases (ltb (max / 2) result)) [
    | inl past ↦
        let more : max ≤ result * pow2 (suc n) = omega (arith, past_half max result n past) in
        rw (test_pos result max, e, test_pos (max / 2) result, past)
          (ap pos (sym (reached max (result * pow2 (suc n)) more)))
    | inr below ↦
        let doubled : result + result ≤ max = ground (arith, below) in
        rw
          (test_pos result max, e, test_pos (max / 2) result, below, double_fits max result k below)
          (delay_lem max n (result + result) doubled k
            ∙ ap (λ m. pos (least max m)) (twice result n))
  ]
]

-- For positive durations in order, each an int64, the delay before attempt n + 1 is the exact base
-- delay doubled n - 1 times, or the maximum if that is less: although int64 doubling wraps around,
-- the result is never a wrapped number, however many attempts there were.
pub backoff_lem :
    (base max attempts : ℕ)
    → 0 < base
    → base ≤ max
    → max < two63
    → backoff (pos base) (pos max) attempts ≡ pos (least max (base * pow2 (attempts - 1)))
unfolding backoff
backoff_lem base max attempts p h k = delay_lem max (attempts - 1) base h k
