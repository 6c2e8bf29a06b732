-- ===== src/Money/Tests.antt =====
-- Runs of the checked operations, and the money theorems at concrete inputs.
use meta_pulse.Prelude.{◌≡◌, ◌≤◌, refl, arith, inr}
use meta_pulse.Prelude.Int.{ℤ, pos, negsuc, ◌+ℤ◌, ◌-ℤ◌}
use meta_pulse.Prelude.Word.{add_int64, sub_int64, max_int64, min_int64}
use meta_pulse.Prelude.Result.{ok, err}
use meta_pulse.Money.{overflow, invalid_bps, add, sub, multiply_bps}
use meta_pulse.Money.Bounds.{
  IsChecked, IsTruncated, magnitude, add-IsChecked, sub-IsChecked, multiply_bps-IsChecked,
  multiply_bps_invalid, multiply_bps_shrinks,
}

add_at_the_limit : add max_int64 (pos 1) ≡ err overflow
unfolding add add_int64 sub_int64
add_at_the_limit = refl

sub_least : sub (negsuc 0) min_int64 ≡ ok max_int64
unfolding sub add_int64 sub_int64
sub_least = refl

multiply_truncates : multiply_bps (negsuc 18) (pos 5000) ≡ ok (negsuc 8)
unfolding multiply_bps
multiply_truncates = refl

add-IsChecked_example : IsChecked (max_int64 +ℤ pos 1) (add max_int64 (pos 1))
add-IsChecked_example = add-IsChecked max_int64 (pos 1) (omega arith) (omega arith)

sub-IsChecked_example : IsChecked (negsuc 0 -ℤ min_int64) (sub (negsuc 0) min_int64)
sub-IsChecked_example = sub-IsChecked (negsuc 0) min_int64 (omega arith) (omega arith)

multiply_bps-IsChecked_example :
    (q : ℤ) × IsTruncated (negsuc 18) 5000 q × IsChecked q (multiply_bps (negsuc 18) (pos 5000))
multiply_bps-IsChecked_example =
    multiply_bps-IsChecked (negsuc 18) (pos 5000) (omega arith) (omega arith)

multiply_bps_invalid_example : multiply_bps (pos 7) (pos 1000001) ≡ err invalid_bps
multiply_bps_invalid_example = multiply_bps_invalid (pos 7) (pos 1000001) (inr (omega arith))

multiply_bps_shrinks_example :
    (q : ℤ) × (multiply_bps max_int64 (pos 9999) ≡ ok q) × (magnitude q ≤ magnitude max_int64)
multiply_bps_shrinks_example =
    multiply_bps_shrinks max_int64 (pos 9999) (omega arith) (omega arith) (omega arith)
