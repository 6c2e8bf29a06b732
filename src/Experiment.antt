-- ===== src/Experiment.antt =====
-- Deterministic holdout assignment (services/pulse/internal/domain/experiment/experiment.go).
-- HMAC-SHA256 is a parameter: it gives the first two bytes of the digest of the experiment, a zero
-- byte and the eight bytes of the user as a big-endian number.
pub mod Buckets
mod Tests
use meta_pulse.Prelude.{
  ℕ, ◌+◌, ◌%◌, String, Bool, true, false, ◌||◌, Option, none, some, List, [], ◌∷◌, ◌==◌, ltb,
  if◌then◌else◌,
}
use meta_pulse.Prelude.Text.{is_blank}
use meta_pulse.Prelude.Pick.{pick}
use meta_pulse.Prelude.Result.{Result, ok, err, ◌>>=◌, ◌>>◌, fail_if}

pub record Variant : Type 0 where
  pub name : String
  pub percentage : ℕ  -- uint16, in basis points

abbrev pub share : Variant → ℕ
share v = v.percentage

pub record Assignment : Type 0 where
  pub experiment_id : String
  pub user_id : ℕ
  pub cohort : String
  pub bucket_bps : ℕ

pub data AssignmentError : Type 0 where
  invalid_assignment : AssignmentError

abbrev pub is_nil {ℓ} : {A : Type ℓ} → List A → Bool
is_nil [] = true
is_nil (_ ∷ _) = false

-- The first loop of `Assign`: each variant is named and has a share, and the shares, added on
-- uint32, never pass 10000.
unfoldable pub check_variants : ℕ → List Variant → Result AssignmentError (Unit {0})
check_variants total [] = ok tt
check_variants total (v ∷ vs) = do
  fail_if (is_blank v.name || v.percentage == 0) invalid_assignment
  fail_if (ltb 10000 ((total + v.percentage) % 4294967296)) invalid_assignment
  check_variants ((total + v.percentage) % 4294967296) vs

abbrev pub cohort_of : Option Variant → String
cohort_of none = "holdout"
cohort_of (some v) = v.name

module _ (digest16 : List ℕ → String → ℕ → ℕ) where
  -- `bucket` of `Assign`.
  unfoldable pub bucket : List ℕ → String → ℕ → ℕ
  bucket secret experiment user = digest16 secret experiment user % 10000

  -- `Assign`; the second loop adds the shares on uint16.
  unfoldable pub assign : List ℕ → String → ℕ → List Variant → Result AssignmentError Assignment
  unfolding bucket
  assign secret experiment user variants = do
    fail_if (is_nil secret || is_blank experiment || user == 0 || is_nil variants)
        invalid_assignment
    check_variants 0 variants
    let b = bucket secret experiment user
    ok (record {
      experiment_id = experiment;
      user_id = user;
      cohort = cohort_of (pick share 65536 b 0 variants);
      bucket_bps = b;
    })
