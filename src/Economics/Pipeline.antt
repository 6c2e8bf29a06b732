-- ===== src/Economics/Pipeline.antt =====
-- The three functions in a row: `ValidateRules`, `Select` and `Evaluate`.
use meta_pulse.Prelude.{
  ℕ, ◌==◌, ◌≡◌, refl, ◌⊎◌, ◌||◌, ◌&&◌, not, inl, inr, true, false, Bool, Option, Bool-cases, some,
  String, List, [], ◌∷◌, In, here, there, subst, arith,
}
use meta_pulse.Prelude.Int.{ℤ, pos, pos_part, ltb_ℤ, ◌≤ℤ◌}
use meta_pulse.Prelude.Word.{IsInt64}
use meta_pulse.Prelude.Text.{text_eq, text_eq_iff, is_blank, is_empty}
use meta_pulse.Prelude.Result.{Result, ok, err, ◌>>◌, fail_if}
use meta_pulse.Money.{overflow, max_bps, validate_bps}
use meta_pulse.Money.Bounds.{IsTruncated}
use meta_pulse.Economics.{
  Rule, RuleError, version_mismatch, bad_pattern, check_multiplier, is_bad, validate_each,
  validate_rules, select, evaluate,
}
use meta_pulse.Economics.Choice.{select-Chosen}
use meta_pulse.Economics.Evaluation.{decides, evaluate_lem}

-- What the validation establishes of a rule.
abbrev Sound : String → Rule → Type 0
Sound version r =
    (r.config_version ≡ version) × (pos 0 ≤ℤ r.multiplier_bps) × (r.multiplier_bps ≤ℤ max_bps)

abbrev is_mismatch : String → Rule → Bool
is_mismatch version r = r.id == 0 || is_blank r.key || not (text_eq r.config_version version)

then_ok :
    (r rest : Result RuleError (Unit {0})) → (r >> rest) ≡ ok tt → (r ≡ ok tt) × (rest ≡ ok tt)
then_ok (err e) rest h = cc
then_ok (ok x) rest h = (refl, h)

passed : (bad : Bool) (e : RuleError) → fail_if bad e ≡ ok tt → bad ≡ false
passed true e h = cc
passed false e h = refl

multiplier_bounds : (b : ℤ) → check_multiplier b ≡ ok tt → (pos 0 ≤ℤ b) × (b ≤ℤ max_bps)
unfolding validate_bps
multiplier_bounds b h = elim (Bool-cases (ltb_ℤ b (pos 0))) [
  | inl e ↦ let no = rw (check_multiplier, e) at h in cc
  | inr e ↦ elim (Bool-cases (ltb_ℤ max_bps b)) [
    | inl f ↦ let no = rw (check_multiplier, e, f) at h in cc
    | inr f ↦ (ground (arith, e), ground (arith, f))
  ]
]

module _ (path_match : String → String → Option Bool) (version : String) where
  abbrev is_broken : Rule → Bool
  is_broken r = not (is_empty r.model_pattern) && is_bad (path_match r.model_pattern "")

  -- The head is sound, and the validation goes on to the rest.
  head-Sound :
      (r : Rule) (rs : List Rule)
      → validate_each path_match version (r ∷ rs) ≡ ok tt
      → Sound version r × (validate_each path_match version rs ≡ ok tt)
  unfolding validate_each
  head-Sound r rs h =
      let (a, k) = then_ok (fail_if (is_mismatch version r) version_mismatch) _ h in
      let (b, l) = then_ok (check_multiplier r.multiplier_bps) _ k in
      let (_, m) =
        then_ok (fail_if (is_broken r) bad_pattern) (validate_each path_match version rs) l in
      let (low, high) = multiplier_bounds r.multiplier_bps b in
      (
        (
          (text_eq_iff r.config_version version).0
              (ground (arith, passed (is_mismatch version r) version_mismatch a)),
          low,
          high,
        ),
        m,
      )

  listed-Sound :
      (r : Rule) (rs : List Rule)
      → validate_each path_match version rs ≡ ok tt
      → In r rs
      → Sound version r
  listed-Sound r [] h m = elim m [ ]
  listed-Sound r (x ∷ rs) h here = (head-Sound x rs h).0
  listed-Sound r (x ∷ rs) h (there m) = listed-Sound r rs (head-Sound x rs h).1 m

  validated :
      (rs : List Rule)
      → validate_rules path_match rs version ≡ ok tt
      → validate_each path_match version rs ≡ ok tt
  unfolding validate_rules
  validated rs h = elim (Bool-cases (is_blank version)) [
    | inl e ↦ let no = rw e at h in cc
    | inr e ↦ rw e at h
  ]

-- A rule that `Select` returns from a list that `ValidateRules` accepts for a version is of that
-- version, and `Evaluate` never refuses its multiplier: the contribution is 0 if the rule is
-- ineligible, and otherwise the quota over 10000 basis points, truncated toward zero, or the
-- overflow error if no int64 holds it.
pub select_evaluates :
    (path_match : String → String → Option Bool) (rules : List Rule) (version model : String)
    (channel : ℕ) (quota : ℤ) (r : Rule)
    → validate_rules path_match rules version ≡ ok tt
    → select path_match rules model channel ≡ some r
    → (r.config_version ≡ version)
      × (((r.eligible ≡ false) × (evaluate quota r ≡ ok (decides r (pos 0))))
          ⊎ ((r.eligible ≡ true)
              × ((q : ℤ) × IsTruncated quota (pos_part r.multiplier_bps) q
                  × ((IsInt64 q × (evaluate quota r ≡ ok (decides r q)))
                      ⊎ (¬ IsInt64 q × (evaluate quota r ≡ err overflow))))))
select_evaluates path_match rules version model channel quota r v s =
    elim (select-Chosen path_match model channel rules) [
      | inr (_, n) ↦ cc
      | inl (x, f, chosen) ↦
          let same : x ≡ r = cc in
          let (own, low, high) =
            listed-Sound path_match version r rules (validated path_match version rules v)
              (subst (λ y. In y rules) same chosen.listed) in
          (own, evaluate_lem quota r low high)
    ]
