-- ===== src/Settlement/Setup.antt =====
-- `NewSettlementService` (services/pulse/internal/service/settlement.go): its checks of the
-- configuration and its defaults. A duration is a number of nanoseconds.
use meta_pulse.Prelude.{
  ℕ, ◌==◌, ltb, ◌≡◌, ◌<◌, ◌≤◌, subst, ◌||◌, Bool-cases, inl, inr, arith, if◌then◌else◌,
}
use meta_pulse.Prelude.Int.{ℤ, pos, pos_part, leb_ℤ, ltb_ℤ}
use meta_pulse.Prelude.Word.{IsInt64, two63}
use meta_pulse.Prelude.Result.{Result, ok, err}
use meta_pulse.Settlement.Service.{Config}

-- `SettlementConfig` as the caller gives it.
pub record Requested : Type 0 where
  pub batch_size : ℤ
  pub lease : ℤ
  pub base_backoff : ℤ
  pub max_backoff : ℤ
  pub max_attempts : ℕ

pub data ConfigError : Type 0 where
  batch_out_of_range max_below_base : ConfigError

-- A duration that is not positive takes its default.
abbrev pub or_default : ℕ → ℤ → ℕ
or_default standard d = if leb_ℤ d (pos 0) then standard else pos_part d

abbrev pub defaulted : Requested → Config
defaulted r = record {
  batch_size = pos_part r.batch_size;
  lease = or_default 120000000000 r.lease;
  base_backoff = or_default 5000000000 r.base_backoff;
  max_backoff = or_default 900000000000 r.max_backoff;
  max_attempts = if r.max_attempts == 0 then 10 else r.max_attempts;
}

-- `NewSettlementService`
unfoldable pub new_settlement_service : Requested → Result ConfigError Config
new_settlement_service r =
    if leb_ℤ r.batch_size (pos 0) || ltb_ℤ (pos 5000) r.batch_size
    then err batch_out_of_range
    else if ltb (defaulted r).max_backoff (defaulted r).base_backoff
    then err max_below_base
    else ok (defaulted r)

-- What the passes ask of a configuration: the range that `ClaimDue` and `ListForReconciliation`
-- accept, leases that end later than they start, and a schedule of positive int64 durations.
pub record IsUsable (c : Config) : Type 0 where
  pub some_rows : 0 < c.batch_size
  pub few_rows : c.batch_size ≤ 5000
  pub lease : 0 < c.lease
  pub base : 0 < c.base_backoff
  pub ordered : c.base_backoff ≤ c.max_backoff
  pub representable : c.max_backoff < two63
  pub attempts : 0 < c.max_attempts

or_default_lem :
    (standard : ℕ) (d : ℤ)
    → 0 < standard
    → standard < two63
    → IsInt64 d
    → (0 < or_default standard d) × (or_default standard d < two63)
or_default_lem standard d s t h = elim (Bool-cases (leb_ℤ d (pos 0))) [
  | inl e ↦ rw e (s, t)
  | inr e ↦ rw e (ground (arith, e, h), ground (arith, e, h))
]

ok_eq : {x y : Config} → ◌≡◌ {A = Result ConfigError Config} (ok x) (ok y) → x ≡ y
ok_eq h = cc

-- A configuration of int64 durations that the constructor accepts is usable by the passes: its
-- batch size is from 1 to 5000, its lease and its backoff durations are positive, the base backoff
-- is at most the maximum, and at least one attempt is allowed.
pub new_settlement_service-IsUsable :
    (r : Requested) (c : Config)
    → IsInt64 r.lease
    → IsInt64 r.base_backoff
    → IsInt64 r.max_backoff
    → new_settlement_service r ≡ ok c
    → IsUsable c
unfolding new_settlement_service
new_settlement_service-IsUsable r c lease base max q =
    elim (Bool-cases (leb_ℤ r.batch_size (pos 0) || ltb_ℤ (pos 5000) r.batch_size)) [
      | inl e ↦ let no = rw e at q in cc
      | inr e ↦ elim (Bool-cases (ltb (defaulted r).max_backoff (defaulted r).base_backoff)) [
        | inl n ↦ let no = rw (e, n) at q in cc
        | inr n ↦
            let same : defaulted r ≡ c = ok_eq (rw (e, n) at q) in
            subst IsUsable same (record {
              some_rows = ground (arith, e);
              few_rows = ground (arith, e);
              lease = (or_default_lem 120000000000 r.lease (omega arith) (omega arith) lease).0;
              base = (or_default_lem 5000000000 r.base_backoff (omega arith) (omega arith) base).0;
              ordered = ground (arith, n);
              representable =
                  (or_default_lem 900000000000 r.max_backoff (omega arith) (omega arith) max).1;
              attempts = ground arith;
            })
      ]
    ]
