-- ===== src/Level.antt =====
-- The lifetime level (services/pulse/internal/domain/level/level.go): definitions are sorted by
-- their threshold, stably, and the last one that the lifetime contribution reaches names the level.
pub mod Reached
mod Tests
use meta_pulse.Prelude.{String, Bool, not, List, [], ◌∷◌, if◌then◌else◌}
use meta_pulse.Prelude.Int.{ℤ, ltb_ℤ, leb_ℤ}
use meta_pulse.Prelude.Sort.{sort_stable}

pub record Definition : Type 0 where
  pub key : String
  pub name : String
  pub min_contribution_milli : ℤ

pub record Level : Type 0 where
  pub key : String
  pub name : String
  pub lifetime_contribution : ℤ

-- The function `less` of the sort.
abbrev pub lower : Definition → Definition → Bool
lower a b = ltb_ℤ a.min_contribution_milli b.min_contribution_milli

-- The loop over the sorted definitions.
unfoldable pub climb : ℤ → Level → List Definition → Level
climb lifetime result [] = result
climb lifetime result (d ∷ ds) =
    climb lifetime
      (if leb_ℤ d.min_contribution_milli lifetime
        then record result { key = d.key; name = d.name }
        else result)
      ds

abbrev pub unranked : ℤ → Level
unranked lifetime = record { key = ""; name = ""; lifetime_contribution = lifetime }

-- `Calculate`
unfoldable pub calculate : ℤ → List Definition → Level
unfolding climb
calculate lifetime [] = unranked lifetime
calculate lifetime (d ∷ ds) = climb lifetime (unranked lifetime) (sort_stable lower (d ∷ ds))
