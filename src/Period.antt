-- ===== src/Period.antt =====
-- The time window and lifecycle of a period
-- (services/pulse/internal/domain/period/period.go and lifecycle.go). Instants are numbers; a
-- `Status` is a string type in Go, so `other` holds any string that is none of the four constants,
-- the empty one included. A returned error is an option of a `PeriodError`.
pub mod Lifecycle
pub mod Resolve
mod Tests
use meta_pulse.Prelude.{
  ℕ, ◌+◌, String, Bool, true, false, not, ◌&&◌, ◌||◌, Option, none, some, List, [], ◌∷◌, ◌==◌, ltb,
  if◌then◌else◌,
}
use meta_pulse.Prelude.Int.{ℤ, pos}
use meta_pulse.Prelude.Text.{text_eq}
use meta_pulse.Prelude.Result.{Result, ok, err}

pub data Status : Type 0 where
  draft active settling closed : Status
  other : String → Status

pub data PeriodError : Type 0 where
  no_active_period overlapping : PeriodError
  invalid_transition : Status → Status → PeriodError

pub record Period : Type 0 where
  pub continuous : Bool
  pub quota_validity_days : ℤ
  pub id : ℕ
  pub key : String
  pub status : Status
  pub starts_at : ℕ
  pub ends_at : ℕ
  pub timezone : String
  pub config_version : String
  pub random_version : String
  pub funding_policy : String
  pub ticket_threshold_milli : ℤ

-- The zero value of `Period`.
abbrev pub no_period : Period
no_period = record {
  continuous = false;
  quota_validity_days = pos 0;
  id = 0;
  key = "";
  status = other "";
  starts_at = 0;
  ends_at = 0;
  timezone = "";
  config_version = "";
  random_version = "";
  funding_policy = "";
  ticket_threshold_milli = pos 0;
}

abbrev pub status_eq : Status → Status → Bool
status_eq draft draft = true
status_eq active active = true
status_eq settling settling = true
status_eq closed closed = true
status_eq (other s) (other t) = text_eq s t
status_eq _ _ = false

-- The map of `Transition`; a missing key gives the empty string.
abbrev pub allowed : Status → Status
allowed draft = active
allowed active = settling
allowed settling = closed
allowed _ = other ""

-- `Transition`
unfoldable pub transition : Status → Status → Result PeriodError (Unit {0})
transition from to =
    if not (status_eq (allowed from) to) then err (invalid_transition from to) else ok tt

-- `Period.Contains`
unfoldable pub contains : Period → ℕ → Bool
contains p at = status_eq p.status active && not (ltb at p.starts_at) && ltb at p.ends_at

-- The test of the first loop of `ResolveActive`.
abbrev pub supersedes : ℕ → Period → Period → Bool
supersedes at p latest =
    p.continuous
    && contains p at
    && (latest.id == 0
        || ltb latest.starts_at p.starts_at
        || (p.starts_at == latest.starts_at && ltb latest.id p.id))

-- The first loop: the latest continuous period that contains the instant.
unfoldable pub latest_continuous : ℕ → Period → List Period → Period
latest_continuous at latest [] = latest
latest_continuous at latest (p ∷ ps) =
    latest_continuous at (if supersedes at p latest then p else latest) ps

-- The second loop: the only period that contains the instant.
unfoldable pub only_match : ℕ → Period → List Period → Result PeriodError Period
only_match at match [] = if match.id == 0 then err no_active_period else ok match
only_match at match (p ∷ ps) =
    let skip = only_match at match ps in
    let take = only_match at p ps in
    if not (contains p at) then skip else if not (match.id == 0) then err overlapping else take

-- `ResolveActive`
unfoldable pub resolve_active : List Period → ℕ → Result PeriodError Period
resolve_active periods at =
    let latest = latest_continuous at no_period periods in
    if not (latest.id == 0) then ok latest else only_match at no_period periods
