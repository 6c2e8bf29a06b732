-- ===== src/Experiment/Tests.antt =====
-- Two variants and a holdout, and the assignment theorems at them. The digest is instantiated by
-- the user's number.
use meta_pulse.Prelude.{ℕ, ◌≡◌, ◌<◌, ◌≤◌, refl, false, String, List, [], ◌∷◌, All, arith}
use meta_pulse.Prelude.Text.{is_blank}
use meta_pulse.Prelude.Pick.{pick, weights}
use meta_pulse.Prelude.Result.{ok}
use meta_pulse.Experiment.{Variant, Assignment, share, check_variants, assign}
use meta_pulse.Experiment.Buckets.{IsNamed, InCohort, assign-InCohort, assign_total}

abbrev by_user : List ℕ → String → ℕ → ℕ
by_user secret experiment user = user

abbrev arms : List Variant
arms = record { name = "a"; percentage = 4000 } ∷ record { name = "b"; percentage = 3000 } ∷ []

abbrev assigned : ℕ → String → Assignment
assigned user cohort = record {
  experiment_id = "exp";
  user_id = user;
  cohort = cohort;
  bucket_bps = user;
}

second_arm : assign by_user (1 ∷ []) "exp" 4000 arms ≡ ok (assigned 4000 "b")
unfolding assign check_variants pick is_blank
second_arm = refl

held_out : assign by_user (1 ∷ []) "exp" 7000 arms ≡ ok (assigned 7000 "holdout")
unfolding assign check_variants pick is_blank
held_out = refl

assign-InCohort_example :
    let a = assigned 4000 "b" in
    (a.experiment_id ≡ "exp")
    × (a.user_id ≡ 4000)
    × (a.bucket_bps < 10000)
    × All IsNamed arms
    × (weights share arms ≤ 10000)
    × InCohort a.bucket_bps arms a.cohort
assign-InCohort_example = assign-InCohort by_user (1 ∷ []) "exp" 4000 arms (omega arith) second_arm

arms-IsNamed : All IsNamed arms
unfolding is_blank
arms-IsNamed = ((refl, omega arith), ((refl, omega arith), tt))

exp_set : is_blank "exp" ≡ false
unfolding is_blank
exp_set = refl

assign_total_example : (a : Assignment) × (assign by_user (1 ∷ []) "exp" 4000 arms ≡ ok a)
assign_total_example =
    assign_total by_user (1 ∷ []) "exp" 4000 arms (λ e. cc) exp_set (omega arith) (λ e. cc)
      arms-IsNamed (omega arith)
