-- ===== src/Reward.antt =====
-- The weighted draw (services/pulse/internal/domain/reward/reward.go). A 32-byte digest is a list of
-- bytes; SHA-256 is a parameter, and so is the digest that `Derive` computes by HMAC.
pub mod Draw
mod Tests
use meta_pulse.Prelude.{
  ℕ, zero, suc, ◌+◌, ◌-◌, ◌*◌, ◌%◌, String, Bool, true, false, not, ◌&&◌, ◌||◌, Option, none, some,
  List, [], ◌∷◌, ◌==◌, ltb, leb, if◌then◌else◌,
}
use meta_pulse.Prelude.Int.{ℤ, pos, leb_ℤ}
use meta_pulse.Prelude.Text.{is_blank}
use meta_pulse.Prelude.Word.{two64, max_uint64, add_uint64}
use meta_pulse.Prelude.Pick.{pick}
use meta_pulse.Prelude.Result.{Result, ok, err, ◌>>=◌, ◌>>◌, fail_if}

pub record Definition : Type 0 where
  pub id : ℕ
  pub reward_key : String
  pub reward_type : String
  pub amount : ℤ
  pub weight : ℕ
  pub transferable_quota : Bool
  pub config_version : String
  pub enabled : Bool

pub data RewardError : Type 0 where
  no_definition invalid_secret weight_overflow invalid_input : RewardError

-- `Definition.Valid`
unfoldable pub valid : Definition → Bool
valid d =
    ltb 0 d.id
    && not (is_blank d.reward_key)
    && not (is_blank d.reward_type)
    && leb_ℤ (pos 0) d.amount
    && ltb 0 d.weight
    && not (is_blank d.config_version)

abbrev pub is_drawn : Definition → Bool
is_drawn d = d.enabled && valid d

-- The first loop of `SelectWeighted`: the valid definitions and their total weight.
unfoldable pub collect : ℕ → List Definition → Result RewardError (ℕ × List Definition)
collect total [] = ok (total, [])
collect total (d ∷ ds) =
    let skip = collect total ds in
    let keep = collect (add_uint64 total d.weight) ds in
    if not (is_drawn d)
    then skip
    else if ltb (max_uint64 - total) d.weight
    then err weight_overflow
    else (keep >>= λ (t, ws). ok (t, d ∷ ws))

-- `binaryUint64`: eight bytes, big-endian, and 0 for fewer.
unfoldable pub binary_uint64 : List ℕ → ℕ
binary_uint64 (a ∷ b ∷ c ∷ d ∷ e ∷ f ∷ g ∷ h ∷ _) =
    (((((((a * 256 + b) * 256 + c) * 256 + d) * 256 + e) * 256 + f) * 256 + g) * 256 + h)
binary_uint64 _ = 0

abbrev pub drop : ℕ → List ℕ → List ℕ
drop zero xs = xs
drop (suc n) [] = []
drop (suc n) (x ∷ xs) = drop n xs

abbrev pub weight_of : Definition → ℕ
weight_of d = d.weight

-- `valid[len(valid)-1]`
abbrev pub last : Definition → List Definition → Definition
last d [] = d
last d (e ∷ ds) = last e ds

-- The final walk over the valid definitions; it ends with the last of them if none is hit.
unfoldable pub choose : ℕ → List Definition → Option Definition
choose target [] = none
choose target (d ∷ ds) = elim (pick weight_of two64 target 0 (d ∷ ds)) [
  | some x ↦ some x
  | none ↦ some (last d ds)
]

-- `limit`
abbrev pub limit_of : ℕ → ℕ
limit_of total = max_uint64 - max_uint64 % total

module _ (sha256 : List ℕ → List ℕ) where
  -- `for n >= limit`, with fuel; `none` means that the fuel ran out.
  unfoldable pub reject : ℕ → ℕ → ℕ → List ℕ → Option ℕ
  reject zero limit n random = none
  reject (suc fuel) limit n random =
      let rest = reject fuel limit (binary_uint64 (drop 8 random)) (sha256 random) in
      if leb limit n then rest else some n

  -- `SelectWeighted`; `ok none` means that the fuel ran out.
  unfoldable pub select_weighted :
      ℕ → List Definition → List ℕ → Result RewardError (Option Definition)
  select_weighted fuel definitions random = do
    (total, ws) ← collect 0 definitions
    fail_if (total == 0) no_definition
    ok (elim (reject fuel (limit_of total) (binary_uint64 random) random) [
      | none ↦ none
      | some n ↦ choose (n % total) ws
    ])
