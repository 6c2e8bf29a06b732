-- ===== src/Settlement.antt =====
-- The settlement service (services/pulse/internal/service/settlement.go), and here its retry
-- schedule. A duration is an int64 number of nanoseconds: doubling one wraps around into the
-- negative numbers, and the guard of the loop is what keeps it from that.
pub mod Backoff
pub mod Service
pub mod Setup
pub mod Passes
pub mod Fence
mod Tests
use meta_pulse.Prelude.{ℕ, zero, suc, ◌+◌, ◌/◌, ◌-◌, Bool, true, false, not, if◌then◌else◌}
use meta_pulse.Prelude.Int.{ℤ, pos, negsuc, pos_part, neg_part, ◌-ℤ◌, ltb_ℤ}
use meta_pulse.Prelude.Word.{add_int64}

-- `d / 2`, truncated toward zero.
abbrev pub half : ℤ → ℤ
half (pos n) = pos (n / 2)
half (negsuc n) = pos 0 -ℤ pos (suc n / 2)

abbrev pub cap : ℤ → ℤ → ℤ
cap max result = if ltb_ℤ max result then max else result

-- The loop of `backoff`, with the rounds that `i < attempts` leaves; `result *= 2` adds the int64
-- to itself.
unfoldable pub delay : ℤ → ℕ → ℤ → ℤ
delay max zero result = cap max result
delay max (suc rounds) result =
    let rest = delay max rounds (add_int64 result result) in
    if not (ltb_ℤ result max) then cap max result else if ltb_ℤ (half max) result then max else rest

-- `now.Add(d)`
abbrev pub later : ℕ → ℤ → ℕ
later now d = now + pos_part d - neg_part d

-- `SettlementService.backoff`
unfoldable pub backoff : ℤ → ℤ → ℕ → ℤ
backoff base max attempts = delay max (attempts - 1) base
