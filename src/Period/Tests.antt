-- ===== src/Period/Tests.antt =====
-- Two adjacent periods and a continuous one, and the period theorems at them.
use meta_pulse.Prelude.{◌+◌, ◌≡◌, ◌≢◌, ◌↔◌, ◌⊎◌, refl, true, false, [], ◌∷◌, All, arith}
use meta_pulse.Prelude.Result.{ok, err}
use meta_pulse.Period.{
  Period, no_period, draft, active, settling, closed, other, transition, contains, resolve_active,
  latest_continuous, only_match, overlapping,
}
use meta_pulse.Period.Lifecycle.{
  Edge, transition_iff, transition_to_empty, Life, born, then, stage, steps, Life-stage,
  contains_boundary,
}
use meta_pulse.Period.Resolve.{Covers, Newest, containing, sole, resolve_active_lem}

abbrev first : Period
first = record no_period { id = 1; status = active; starts_at = 10; ends_at = 20 }

abbrev second : Period
second = record no_period { id = 2; status = active; starts_at = 20; ends_at = 30 }

abbrev rolling : Period
rolling = record no_period {
  continuous = true;
  id = 3;
  status = active;
  starts_at = 5;
  ends_at = 99;
}

boundary_instant : resolve_active (first ∷ second ∷ []) 20 ≡ ok second
unfolding resolve_active latest_continuous only_match contains
boundary_instant = refl

rolling_wins : resolve_active (first ∷ rolling ∷ []) 12 ≡ ok rolling
unfolding resolve_active latest_continuous only_match contains
rolling_wins = refl

overlap : resolve_active (first ∷ first ∷ []) 12 ≡ err overlapping
unfolding resolve_active latest_continuous only_match contains
overlap = refl

transition_iff_example : (transition active settling ≡ ok tt) ↔ Edge active settling
transition_iff_example = transition_iff active settling (λ e. cc)

transition_to_empty_example :
    (transition closed (other "") ≡ ok tt)
    ↔ (¬ (closed ≡ draft) × ¬ (closed ≡ active) × ¬ (closed ≡ settling))
transition_to_empty_example = transition_to_empty closed

draft-active : transition draft active ≡ ok tt
unfolding transition
draft-active = refl

active-settling : transition active settling ≡ ok tt
unfolding transition
active-settling = refl

active-set : active ≢ other ""
active-set e = cc

settling-set : settling ≢ other ""
settling-set e = cc

abbrev two_steps : Life draft settling
two_steps = then (then born draft-active active-set) active-settling settling-set

Life-stage_example : stage settling ≡ stage draft + steps two_steps
Life-stage_example = Life-stage draft settling two_steps

contains_boundary_example : contains second 19 ≡ false
unfolding contains
contains_boundary_example = contains_boundary first second 19 (omega arith) refl

resolve_active_lem_example :
    ((p : Period) × (resolve_active (first ∷ rolling ∷ []) 12 ≡ ok p)
      × Newest 12 (first ∷ rolling ∷ []) p)
    ⊎ (All (λ q. ¬ Covers 12 q) (first ∷ rolling ∷ [])
        × (resolve_active (first ∷ rolling ∷ []) 12 ≡ sole (containing 12 (first ∷ rolling ∷ []))))
resolve_active_lem_example = resolve_active_lem (first ∷ rolling ∷ []) 12 (omega arith)
