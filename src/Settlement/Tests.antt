-- ===== src/Settlement/Tests.antt =====
-- The default schedule, in seconds from 5 to 900, and a configuration.
use meta_pulse.Prelude.{◌≡◌, ◌*◌, ◌-◌, refl, arith}
use meta_pulse.Prelude.Int.{pos}
use meta_pulse.Prelude.Result.{ok}
use meta_pulse.Prelude.Word.{max_int64, add_int64}
use meta_pulse.Settlement.Setup.{
  Requested, IsUsable, defaulted, new_settlement_service, new_settlement_service-IsUsable,
}
use meta_pulse.Settlement.{delay, backoff}
use meta_pulse.Settlement.Backoff.{pow2, least, backoff_lem}

third : backoff (pos 5) (pos 900) 3 ≡ pos 20
unfolding backoff delay add_int64
third = refl

last : backoff (pos 5) (pos 900) 10 ≡ pos 900
unfolding backoff delay add_int64
last = refl

-- A maximum near the end of int64, where one more doubling would wrap around.
widest : backoff (pos 5000000000000000000) max_int64 9 ≡ max_int64
unfolding backoff delay add_int64
widest = refl

backoff_lem_example :
    backoff (pos 5000000000000000000) max_int64 4
    ≡ pos (least 9223372036854775807 (5000000000000000000 * pow2 (4 - 1)))
backoff_lem_example =
    backoff_lem 5000000000000000000 9223372036854775807 4 (omega arith) (omega arith) (omega arith)

-- Everything left to its default but the batch size and the base delay.
abbrev hundred : Requested
hundred = record {
  batch_size = pos 100;
  lease = pos 0;
  base_backoff = pos 1000000000;
  max_backoff = pos 0;
  max_attempts = 0;
}

accepted : new_settlement_service hundred ≡ ok (defaulted hundred)
unfolding new_settlement_service
accepted = refl

new_settlement_service-IsUsable_example : IsUsable (defaulted hundred)
new_settlement_service-IsUsable_example =
    new_settlement_service-IsUsable hundred (defaulted hundred) (omega arith, omega arith)
      (omega arith, omega arith) (omega arith, omega arith) accepted
