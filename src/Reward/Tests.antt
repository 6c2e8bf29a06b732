-- ===== src/Reward/Tests.antt =====
-- A draw over three definitions, and the theorems at it. The digest function is instantiated by
-- one that keeps the bytes, and by one that clears them.
use meta_pulse.Prelude.{
  ℕ, ◌+◌, ◌*◌, ◌/◌, ◌≡◌, ◌≤◌, ◌<◌, ◌⊎◌, refl, true, false, some, none, List, [], ◌∷◌, arith,
}
use meta_pulse.Prelude.Int.{pos}
use meta_pulse.Prelude.Text.{is_blank}
use meta_pulse.Prelude.Word.{two64, max_uint64}
use meta_pulse.Prelude.Pick.{pick, weights}
use meta_pulse.Prelude.Result.{ok, err}
use meta_pulse.Reward.{
  Definition, no_definition, weight_overflow, valid, collect, binary_uint64, weight_of, choose,
  limit_of, reject, select_weighted,
}
use meta_pulse.Reward.Draw.{
  drawn, FirstBelow, AllRejected, Drawn, reject_total, limit_fair, select_weighted_lem,
}

abbrev clear : List ℕ → List ℕ
clear random = []

abbrev prize : ℕ → ℕ → Definition
prize id weight = record {
  id = id;
  reward_key = "k";
  reward_type = "quota";
  amount = pos 1;
  weight = weight;
  transferable_quota = false;
  config_version = "v1";
  enabled = true;
}

abbrev small : Definition
small = prize 1 70

abbrev large : Definition
large = prize 3 30

abbrev disabled : Definition
disabled = record small { id = 2; enabled = false }

abbrev prizes : List Definition
prizes = small ∷ disabled ∷ large ∷ []

abbrev digest : ℕ → List ℕ
digest b = 0 ∷ 0 ∷ 0 ∷ 0 ∷ 0 ∷ 0 ∷ 0 ∷ b ∷ []

draws_large : select_weighted clear 1 prizes (digest 85) ≡ ok (some large)
unfolding select_weighted collect valid is_blank reject binary_uint64 choose pick
draws_large = refl

nothing_enabled : select_weighted clear 1 (disabled ∷ []) (digest 85) ≡ err no_definition
unfolding select_weighted collect valid is_blank reject binary_uint64 choose pick
nothing_enabled = refl

-- All eight bytes are 255, which passes the limit for a total of 100; the next draw is 0.
rejected_once :
    select_weighted clear 2 prizes (255 ∷ 255 ∷ 255 ∷ 255 ∷ 255 ∷ 255 ∷ 255 ∷ 255 ∷ [])
    ≡ ok (some small)
unfolding select_weighted collect valid is_blank reject binary_uint64 choose pick
rejected_once = refl

limit_fair_example :
    (limit_of 100 ≡ 100 * (max_uint64 / 100))
    × (0 < max_uint64 / 100)
    × (max_uint64 < limit_of 100 + limit_of 100)
limit_fair_example = limit_fair 100 (omega arith) (omega arith)

reject_total_example :
    (m : ℕ) × (reject clear 2 10 12 (digest 3) ≡ some m) × FirstBelow clear 10 12 (digest 3) m
unfolding binary_uint64
reject_total_example = reject_total clear 2 1 10 12 (digest 3) (omega arith) (omega arith)

-- The weights of two definitions pass uint64.
abbrev heavy : List Definition
heavy = prize 1 max_uint64 ∷ prize 2 1 ∷ []

overflows : select_weighted clear 1 heavy (digest 85) ≡ err weight_overflow
unfolding select_weighted collect valid is_blank reject binary_uint64 choose pick
overflows = refl

select_weighted_lem_example :
    ((two64 ≤ weights weight_of (drawn prizes))
      × (select_weighted clear 1 prizes (digest 85) ≡ err weight_overflow))
    ⊎ (((weights weight_of (drawn prizes) ≡ 0)
          × (select_weighted clear 1 prizes (digest 85) ≡ err no_definition))
        ⊎ (((d : Definition) × (select_weighted clear 1 prizes (digest 85) ≡ ok (some d))
              × Drawn clear prizes (digest 85) d)
            ⊎ ((0 < weights weight_of (drawn prizes))
                × (weights weight_of (drawn prizes) < two64)
                × (select_weighted clear 1 prizes (digest 85) ≡ ok none)
                × AllRejected clear 1
                    (limit_of (weights weight_of (drawn prizes)))
                    (binary_uint64 (digest 85))
                    (digest 85))))
select_weighted_lem_example = select_weighted_lem clear 1 prizes (digest 85)
