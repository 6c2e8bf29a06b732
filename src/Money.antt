-- ===== src/Money.antt =====
-- Fixed-point quantities of the accounting path (services/pulse/internal/domain/money/money.go).
-- `Milli` is an int64 and `Bps` an int32, both read as integers whose range is a hypothesis; the
-- int64 operations keep their wrap-around. `MultiplyBps` goes through `big.Int`, so its product
-- and quotient are exact integers.
pub mod Bounds
mod Tests
use meta_pulse.Prelude.{ℕ, suc, ◌+◌, ◌*◌, ◌/◌, Bool, true, false, ◌&&◌, ltb, leb, if◌then◌else◌}
use meta_pulse.Prelude.Int.{ℤ, pos, negsuc, pos_part, neg_part, ◌+ℤ◌, ◌-ℤ◌, ltb_ℤ, leb_ℤ, eqb_ℤ}
use meta_pulse.Prelude.Word.{two63, max_int64, min_int64, add_int64, sub_int64}
use meta_pulse.Prelude.Result.{Result, ok, err, ◌>>=◌, ◌>>◌, fail_if}

abbrev pub bps_one : ℕ
bps_one = 10000

abbrev pub max_bps : ℤ
max_bps = pos 1000000

pub data MoneyError : Type 0 where
  overflow invalid_bps : MoneyError

-- `Milli.Add`
unfoldable pub add : ℤ → ℤ → Result MoneyError ℤ
add m other =
    if ltb_ℤ (pos 0) other && ltb_ℤ (sub_int64 max_int64 other) m
    then err overflow
    else if ltb_ℤ other (pos 0) && ltb_ℤ m (sub_int64 min_int64 other)
    then err overflow
    else ok (add_int64 m other)

-- `Milli.Sub`; `-other` is `0 - other` on int64.
unfoldable pub sub : ℤ → ℤ → Result MoneyError ℤ
sub m other =
    if eqb_ℤ other min_int64
    then (if leb_ℤ (pos 0) m then err overflow else ok (sub_int64 m other))
    else add m (sub_int64 (pos 0) other)

-- `Bps.Validate`
unfoldable pub validate_bps : ℤ → Result MoneyError (Unit {0})
validate_bps b =
    if ltb_ℤ b (pos 0) then err invalid_bps else if ltb_ℤ max_bps b then err invalid_bps else ok tt

-- `big.Int.Quo` by a positive divisor: truncation toward zero.
unfoldable pub quo : ℤ → ℕ → ℤ
unfolding ◌-ℤ◌
quo (pos n) d = pos (n / d)
quo (negsuc n) d = pos 0 -ℤ pos (suc n / d)

-- `big.Int.Mul` by a multiplier that is not negative.
unfoldable pub times : ℤ → ℕ → ℤ
unfolding ◌-ℤ◌
times (pos n) k = pos (n * k)
times (negsuc n) k = pos 0 -ℤ pos (suc n * k)

-- `big.Int.IsInt64`
abbrev pub is_int64 : ℤ → Bool
is_int64 a = ltb (pos_part a) two63 && leb (neg_part a) two63

-- `Milli.MultiplyBps`
unfoldable pub multiply_bps : ℤ → ℤ → Result MoneyError ℤ
unfolding validate_bps quo times
multiply_bps m multiplier = do
  validate_bps multiplier
  let quotient = quo (times m (pos_part multiplier)) bps_one
  if is_int64 quotient then ok quotient else err overflow
