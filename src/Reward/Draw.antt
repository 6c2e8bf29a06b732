-- ===== src/Reward/Draw.antt =====
-- `SelectWeighted`: which definition a digest draws.
use native.Mathlib.Decide.{dec_lt}
use native.Mathlib.Nat.{mod-lt, div-add-mod, mul-le-mul_left, add-zero, add_assoc}
use meta_pulse.Prelude.{
  ℕ, zero, suc, ◌+◌, ◌-◌, ◌*◌, ◌/◌, ◌%◌, ◌≡◌, ◌≤◌, ◌<◌, ◌⊎◌, inl, inr, refl, true, false,
  Bool-cases, some, List, [], ◌∷◌, none, All, In, here, there, arith, if◌then◌else◌, ltb, leb,
}
use meta_pulse.Prelude.Word.{two64, max_uint64, IsUint64}
use meta_pulse.Prelude.Pick.{weights, Picks, pick-Picks, Picks-In}
use meta_pulse.Prelude.Result.{ok, err, ◌>>=◌}
use meta_pulse.Reward.{
  Definition, no_definition, weight_overflow, is_drawn, collect, binary_uint64, drop, weight_of,
  choose, limit_of, reject, select_weighted,
}

-- The definitions that take part.
abbrev pub drawn : List Definition → List Definition
drawn [] = []
drawn (d ∷ ds) = let rest = drawn ds in if is_drawn d then d ∷ rest else rest

-- The weights are uint64 values.
abbrev pub Weighed : List Definition → Type 0
Weighed = All (λ d. IsUint64 d.weight)

collect-keep :
    (total : ℕ) (d : Definition) (ds : List Definition)
    → is_drawn d ≡ true
    → total + d.weight < two64
    → collect total (d ∷ ds) ≡ (collect (total + d.weight) ds >>= λ (t, ws). ok (t, d ∷ ws))
unfolding collect
collect-keep total d ds e h =
    let fits : ltb (max_uint64 - total) d.weight ≡ false = ground arith in
    let exact : (total + d.weight) % two64 ≡ total + d.weight = omega arith in rw (e, fits, exact)

collect-overflow :
    (total : ℕ) (d : Definition) (ds : List Definition)
    → is_drawn d ≡ true
    → total < two64
    → two64 ≤ total + d.weight
    → collect total (d ∷ ds) ≡ err weight_overflow
unfolding collect
collect-overflow total d ds e t h =
    let over : ltb (max_uint64 - total) d.weight ≡ true = ground arith in rw (e, over)

collect-skip :
    (total : ℕ) (d : Definition) (ds : List Definition)
    → is_drawn d ≡ false
    → collect total (d ∷ ds) ≡ collect total ds
unfolding collect
collect-skip total d ds e = rw e

collect-nil : (total : ℕ) → collect total [] ≡ ok (total + 0, [])
unfolding collect
collect-nil total = rw add-zero

-- The first loop returns the enabled and valid definitions with the exact sum of their weights, or
-- `ErrWeightOverflow`, exactly when no uint64 holds the sum.
pub collect_lem :
    (total : ℕ) (ds : List Definition)
    → total < two64
    → ((total + weights weight_of (drawn ds) < two64)
        × (collect total ds ≡ ok (total + weights weight_of (drawn ds), drawn ds)))
      ⊎ ((two64 ≤ total + weights weight_of (drawn ds)) × (collect total ds ≡ err weight_overflow))
collect_lem total [] t = inl (omega arith, collect-nil total)
collect_lem total (d ∷ ds) t = elim (Bool-cases (is_drawn d)) [
  | inr e ↦ rw (e, collect-skip total d ds e) (collect_lem total ds t)
  | inl e ↦ elim (dec_lt (total + d.weight) two64) [
    | no h ↦ rw e (inr (omega arith, collect-overflow total d ds e t (omega arith)))
    | yes h ↦ elim (collect_lem (total + d.weight) ds h) [
      | inl (b, p) ↦
          rw e (inl (omega arith, rw (collect-keep total d ds e h, p, add_assoc total d.weight)))
      | inr (b, p) ↦ rw e (inr (omega arith, rw (collect-keep total d ds e h, p)))
    ]
  ]
]

-- The limit is a multiple of the total, so that each remainder below the total stands for as many
-- draws below the limit as any other; and more than half of all draws are below the limit.
pub limit_fair :
    (total : ℕ)
    → 0 < total
    → total < two64
    → (limit_of total ≡ total * (max_uint64 / total))
      × (0 < max_uint64 / total)
      × (max_uint64 < limit_of total + limit_of total)
limit_fair total h l =
    let whole = div-add-mod max_uint64 total in
    let part = mod-lt max_uint64 h in
    let some_times : 0 < max_uint64 / total = grind (arith, whole, part) in
    let once : total * 1 ≤ total * (max_uint64 / total) = mul-le-mul_left total some_times in
    (omega (arith, whole), some_times, omega (arith, whole, part, once))

-- Every definition that takes part is listed, enabled and valid.
In-drawn_head :
    (d x : Definition) (ds : List Definition)
    → is_drawn x ≡ true
    → (In d (drawn ds) → In d ds × (is_drawn d ≡ true))
    → In d (x ∷ drawn ds)
    → In d (x ∷ ds) × (is_drawn d ≡ true)
In-drawn_head d x ds e f here = (here, e)
In-drawn_head d x ds e f (there m) = let (i, t) = f m in (there i, t)

In-drawn : (d : Definition) (ds : List Definition) → In d (drawn ds) → In d ds × (is_drawn d ≡ true)
In-drawn d [] m = elim m [ ]
In-drawn d (x ∷ ds) m = elim (Bool-cases (is_drawn x)) [
  | inl e ↦ In-drawn_head d x ds e (In-drawn d ds) (rw e at m)
  | inr e ↦ let (i, t) = In-drawn d ds (rw e at m) in (there i, t)
]

module _ (sha256 : List ℕ → List ℕ) where
  -- The draw after `k` rejections.
  abbrev pub draw : ℕ → ℕ → List ℕ → ℕ
  draw zero n random = n
  draw (suc k) n random = draw k (binary_uint64 (drop 8 random)) (sha256 random)

  -- What the loop returns is the first draw below the limit.
  pub data FirstBelow (limit n : ℕ) (random : List ℕ) : ℕ → Type 0 where
    first :
        (k : ℕ)
        → draw k n random < limit
        → ((j : ℕ) → j < k → limit ≤ draw j n random)
        → FirstBelow limit n random (draw k n random)

  FirstBelow-later :
      (limit n : ℕ) (random : List ℕ) (m : ℕ)
      → limit ≤ n
      → FirstBelow limit (binary_uint64 (drop 8 random)) (sha256 random) m
      → FirstBelow limit n random m
  FirstBelow-later limit n random m h (first k below before) =
      first (suc k) below (earlier_draws before)
    where
      earlier_draws :
          ((j : ℕ) → j < k → limit ≤ draw j (binary_uint64 (drop 8 random)) (sha256 random))
          → (j : ℕ) → j < suc k
          → limit ≤ draw j n random
      earlier_draws b zero l = h
      earlier_draws b (suc j) l = b j (omega arith)

  -- With more fuel than rejections the loop returns, and it returns the first draw below the limit.
  pub reject_total :
      (fuel k limit n : ℕ) (random : List ℕ)
      → k < fuel
      → draw k n random < limit
      → (m : ℕ) × (reject sha256 fuel limit n random ≡ some m) × FirstBelow limit n random m
  unfolding reject
  reject_total zero k limit n random l h = absurd (omega arith)
  reject_total (suc fuel) zero limit n random l h =
      (n, ground arith, first zero h (λ j b. absurd (omega arith)))
  reject_total (suc fuel) (suc k) limit n random l h = elim (Bool-cases (leb limit n)) [
    | inl e ↦
        let (m, p, f) =
          reject_total fuel k limit (binary_uint64 (drop 8 random)) (sha256 random) (omega arith)
            h in
        (m, rw e p, FirstBelow-later limit n random m (ground arith) f)
    | inr e ↦ (n, rw e, first zero (ground arith) (λ j b. absurd (omega arith)))
  ]

  -- None of the first `fuel` draws is below the limit.
  abbrev pub AllRejected : ℕ → ℕ → ℕ → List ℕ → Type 0
  AllRejected zero limit n random = Unit
  AllRejected (suc fuel) limit n random =
      (limit ≤ n) × AllRejected fuel limit (binary_uint64 (drop 8 random)) (sha256 random)

  -- The loop returns the first draw below the limit, or has rejected a draw for each unit of fuel.
  reject_cases :
      (fuel limit n : ℕ) (random : List ℕ)
      → ((m : ℕ) × (reject sha256 fuel limit n random ≡ some m) × FirstBelow limit n random m)
        ⊎ ((reject sha256 fuel limit n random ≡ none) × AllRejected fuel limit n random)
  unfolding reject
  reject_cases zero limit n random = inr (refl, tt)
  reject_cases (suc fuel) limit n random = elim (Bool-cases (leb limit n)) [
    | inr e ↦ inl (n, rw e refl, first zero (ground (arith, e)) (λ j b. absurd (omega arith)))
    | inl e ↦
        let above : limit ≤ n = ground (arith, e) in
        elim (reject_cases fuel limit (binary_uint64 (drop 8 random)) (sha256 random)) [
          | inl (m, p, f) ↦ inl (m, rw e p, FirstBelow-later limit n random m above f)
          | inr (p, r) ↦ inr (rw e p, (above, r))
        ]
  ]

  FirstBelow-below : {limit n m : ℕ} {random : List ℕ} → FirstBelow limit n random m → m < limit
  FirstBelow-below (first k below before) = below

  choose-Picks :
      (target : ℕ) (ds : List Definition)
      → weights weight_of ds < two64
      → target < weights weight_of ds
      → (d : Definition) × (choose target ds ≡ some d) × Picks weight_of target 0 ds d
  unfolding choose
  choose-Picks target [] w h = absurd (omega arith)
  choose-Picks target (x ∷ ds) w h =
      let (d, e, p) =
        pick-Picks weight_of two64 target 0 (x ∷ ds) (omega arith) (omega arith) (omega arith) in
      (d, ground (arith, e), p)

  -- A draw that succeeds: the definition whose share of the total weight holds the remainder of the
  -- first draw below the limit.
  pub record Drawn (ds : List Definition) (random : List ℕ) (d : Definition) : Type 0 where
    pub total_weight : ℕ
    pub positive : 0 < total_weight
    pub fits : total_weight < two64
    pub sums : total_weight ≡ weights weight_of (drawn ds)
    pub number : ℕ
    pub accepted : FirstBelow (limit_of total_weight) (binary_uint64 random) random number
    pub picked : Picks weight_of (number % total_weight) 0 (drawn ds) d
    pub listed : In d ds
    pub enabled : is_drawn d ≡ true

  -- For every list of definitions, whatever the digests are: `SelectWeighted` returns
  -- `ErrWeightOverflow` if the weights of the enabled and valid definitions pass uint64, and
  -- `ErrNoDefinition` if they sum to zero. Otherwise it returns the definition whose share of the
  -- total weight holds the remainder of the first draw below the limit, and that definition is
  -- listed, enabled and valid; or else each of the first `fuel` draws was at the limit or above, and
  -- the fuel has run out.
  pub select_weighted_lem :
      (fuel : ℕ) (ds : List Definition) (random : List ℕ)
      → ((two64 ≤ weights weight_of (drawn ds))
          × (select_weighted sha256 fuel ds random ≡ err weight_overflow))
        ⊎ (((weights weight_of (drawn ds) ≡ 0)
              × (select_weighted sha256 fuel ds random ≡ err no_definition))
            ⊎ (((d : Definition) × (select_weighted sha256 fuel ds random ≡ ok (some d))
                  × Drawn ds random d)
                ⊎ ((0 < weights weight_of (drawn ds))
                    × (weights weight_of (drawn ds) < two64)
                    × (select_weighted sha256 fuel ds random ≡ ok none)
                    × AllRejected fuel
                        (limit_of (weights weight_of (drawn ds)))
                        (binary_uint64 random)
                        random)))
  unfolding select_weighted
  select_weighted_lem fuel ds random = elim (collect_lem 0 ds (omega arith)) [
    | inr (b, p) ↦ inl (omega arith, rw p)
    | inl (b, p) ↦ elim (dec_lt 0 (weights weight_of (drawn ds))) [
      | no z ↦ inr (inl (omega arith, ground arith))
      | yes l ↦ inr (
          inr
            (elim (reject_cases fuel (limit_of (weights weight_of (drawn ds)))
              (binary_uint64 random) random) [
                | inr (q, r) ↦ inr (l, omega arith, ground arith, r)
                | inl (m, q, first_draw) ↦
                    let t = weights weight_of (drawn ds) in
                    let (d, c, pk) = choose-Picks (m % t) (drawn ds) (omega arith) (mod-lt m l) in
                    let (i, en) = In-drawn d ds (Picks-In weight_of pk) in
                    inl (
                      d,
                      ground arith,
                      record {
                        total_weight = t;
                        positive = l;
                        fits = omega arith;
                        sums = refl;
                        number = m;
                        accepted = first_draw;
                        picked = pk;
                        listed = i;
                        enabled = en;
                      },
                    )
              ]))
    ]
  ]
