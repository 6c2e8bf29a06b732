-- ===== src/Period/Lifecycle.antt =====
-- The lifecycle edges and the half-open windows.
use meta_pulse.Prelude.{ℕ, suc, ◌+◌, ◌≡◌, ◌≢◌, ◌↔◌, ◌≤◌, ◌<◌, refl, sym, subst, true, false, arith}
use meta_pulse.Prelude.Text.{text_eq_iff}
use meta_pulse.Prelude.Result.{ok}
use meta_pulse.Period.{
  Status, Period, draft, active, settling, closed, other, status_eq, transition, allowed, contains,
}

pub data Edge : Status → Status → Type 0 where
  activate : Edge draft active
  settle : Edge active settling
  close : Edge settling closed

status_eq_iff : (a b : Status) → (status_eq a b ≡ true) ↔ (a ≡ b)
status_eq_iff draft b = ground arith
status_eq_iff active b = ground arith
status_eq_iff settling b = ground arith
status_eq_iff closed b = ground arith
status_eq_iff (other s) (other t) = ground (arith, text_eq_iff s t)
status_eq_iff (other s) draft = ground arith
status_eq_iff (other s) active = ground arith
status_eq_iff (other s) settling = ground arith
status_eq_iff (other s) closed = ground arith

allowed-Edge : (from to : Status) → allowed from ≡ to → to ≢ other "" → Edge from to
allowed-Edge draft to p h = subst (Edge draft) p activate
allowed-Edge active to p h = subst (Edge active) p settle
allowed-Edge settling to p h = subst (Edge settling) p close
allowed-Edge closed to p h = absurd (h (sym p))
allowed-Edge (other s) to p h = absurd (h (sym p))

allowed_of_Edge : {from to : Status} → Edge from to → allowed from ≡ to
allowed_of_Edge activate = refl
allowed_of_Edge settle = refl
allowed_of_Edge close = refl

transition-ok : (from to : Status) → (transition from to ≡ ok tt) ↔ (allowed from ≡ to)
unfolding transition
transition-ok from to = ground (arith, status_eq_iff (allowed from) to)

-- To a target status that is not the empty string, `Transition` allows exactly the three edges
-- draft to active, active to settling and settling to closed.
pub transition_iff :
    (from to : Status) → to ≢ other "" → (transition from to ≡ ok tt) ↔ Edge from to
transition_iff from to h = (
  λ p. allowed-Edge from to ((transition-ok from to).0 p) h,
  λ e. (transition-ok from to).1 (allowed_of_Edge e),
)

-- To the empty target status `Transition` allows exactly the statuses that have no successor:
-- closed, and every string that is no status.
pub transition_to_empty :
    (from : Status)
    → (transition from (other "") ≡ ok tt) ↔ ((from ≢ draft) × (from ≢ active) × (from ≢ settling))
transition_to_empty draft = ground (arith, transition-ok draft (other ""))
transition_to_empty active = ground (arith, transition-ok active (other ""))
transition_to_empty settling = ground (arith, transition-ok settling (other ""))
transition_to_empty closed = ground (arith, transition-ok closed (other ""))
transition_to_empty (other s) = ground (arith, transition-ok (other s) (other ""))

-- The lives of a period: any number of allowed transitions to statuses that are not empty.
pub data Life (from : Status) : Status → Type 0 where
  born : Life from from
  then : {s t : Status} → Life from s → transition s t ≡ ok tt → t ≢ other "" → Life from t

-- How far a status stands from `draft`.
abbrev pub stage : Status → ℕ
stage draft = 0
stage active = 1
stage settling = 2
stage closed = 3
stage (other s) = 4

Edge-stage : {s t : Status} → Edge s t → stage t ≡ stage s + 1
Edge-stage activate = omega arith
Edge-stage settle = omega arith
Edge-stage close = omega arith

-- The number of transitions of a life.
abbrev pub steps : {s t : Status} → Life s t → ℕ
steps born = 0
steps (then l p h) = suc (steps l)

-- Each transition of a life moves one stage forward: a life of `n` transitions ends `n` stages
-- later, so no status is ever entered again.
pub Life-stage : (s t : Status) (l : Life s t) → stage t ≡ stage s + steps l
Life-stage s t born = omega arith
Life-stage s t (then {s = m} l p h) =
    omega (arith, Life-stage s m l, Edge-stage ((transition_iff m t h).0 p))

-- The window as inequalities.
pub contains_iff :
    (p : Period) (at : ℕ)
    → (contains p at ≡ true) ↔ ((p.status ≡ active) × (p.starts_at ≤ at) × (at < p.ends_at))
unfolding contains
contains_iff p at = ground (arith, status_eq_iff p.status active)

-- Of two periods, the one ending no later than the other starts, no instant lies in both; the
-- instant of the boundary itself lies in no window but the later one.
pub contains_boundary :
    (p q : Period) (at : ℕ) → p.ends_at ≤ q.starts_at → contains p at ≡ true → contains q at ≡ false
unfolding contains
contains_boundary p q at h c = ground arith
