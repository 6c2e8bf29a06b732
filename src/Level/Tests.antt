-- ===== src/Level/Tests.antt =====
-- Three levels, listed out of order, and the theorem at them.
use meta_pulse.Prelude.{◌≡◌, ◌⊎◌, refl, List, [], ◌∷◌, All, String}
use meta_pulse.Prelude.Int.{ℤ, pos, ◌<ℤ◌}
use meta_pulse.Prelude.Sort.{sort_stable}
use meta_pulse.Level.{Definition, climb, unranked, calculate}
use meta_pulse.Level.Reached.{IsTop, calculate_lem}

abbrev level : String → ℤ → Definition
level key min = record { key = key; name = key; min_contribution_milli = min }

abbrev levels : List Definition
levels = level "gold" (pos 900) ∷ level "bronze" (pos 0) ∷ level "silver" (pos 300) ∷ []

silver_reached :
    calculate (pos 500) levels
    ≡ record { key = "silver"; name = "silver"; lifetime_contribution = pos 500 }
unfolding calculate climb sort_stable
silver_reached = refl

calculate_lem_example :
    ((calculate (pos 500) levels).lifetime_contribution ≡ pos 500)
    × (((d : Definition) × IsTop (pos 500) levels (calculate (pos 500) levels) d)
        ⊎ (All (λ e. pos 500 <ℤ e.min_contribution_milli) levels
            × (calculate (pos 500) levels ≡ unranked (pos 500))))
calculate_lem_example = calculate_lem (pos 500) levels
