-- ===== src/Nonce/Replay.antt =====
-- A claimed nonce is refused until it expires.
use meta_pulse.Prelude.{
  ℕ, ◌≡◌, ◌<◌, refl, sym, subst, true, false, Bool-cases, inl, inr, some, String, List, [], ◌∷◌,
  All, arith, ltb,
}
use meta_pulse.Prelude.Text.{text_eq, text_eq_iff, is_empty}
use meta_pulse.Prelude.Result.{ok}
use meta_pulse.Nonce.{Seen, lookup, put, prune, is_alive, claim, claims, Attempt}

lookup-put :
    (key : String) (expires : ℕ) (seen : Seen) → lookup key (put key expires seen) ≡ some expires
unfolding lookup put
lookup-put key expires [] = rw ((text_eq_iff key key).1 refl) refl
lookup-put key expires ((k, expiry) ∷ rest) = elim (Bool-cases (text_eq k key)) [
  | inl e ↦ rw e (rw ((text_eq_iff key key).1 refl) refl)
  | inr e ↦ rw e (rw e (lookup-put key expires rest))
]

lookup-put_other :
    (key other : String) (expires : ℕ) (seen : Seen)
    → text_eq other key ≡ false
    → lookup key (put other expires seen) ≡ lookup key seen
unfolding lookup put
lookup-put_other key other expires [] n = rw n refl
lookup-put_other key other expires ((k, expiry) ∷ rest) n = elim (Bool-cases (text_eq k other)) [
  | inl e ↦
      let same : k ≡ other = (text_eq_iff k other).0 e in
      let miss : text_eq k key ≡ false = subst (λ x. text_eq x key ≡ false) (sym same) n in
      rw (e, n, miss) refl
  | inr e ↦ rw e (rw (lookup-put_other key other expires rest n) refl)
]

lookup-prune :
    (key : String) (now expires : ℕ) (seen : Seen)
    → lookup key seen ≡ some expires
    → now < expires
    → lookup key (prune now seen) ≡ some expires
unfolding lookup prune
lookup-prune key now expires [] f h = cc
lookup-prune key now expires ((k, expiry) ∷ rest) f h =
    ground (arith, lookup-prune key now expires rest)

-- A live nonce stays live through any claim before it expires.
claim-lookup :
    (key : String) (expires : ℕ) (a : Attempt) (seen : Seen)
    → lookup key seen ≡ some expires
    → a.now < expires
    → lookup key (claim a.ended a.now a.key a.expires seen).1 ≡ some expires
unfolding claim
claim-lookup key expires a seen f h =
    let kept = lookup-prune key a.now expires seen f h in
    elim (Bool-cases a.ended) [
      | inl e ↦ rw e f
      | inr e ↦ elim (Bool-cases (is_empty a.key)) [
        | inl m ↦ rw (e, m) f
        | inr m ↦ elim (Bool-cases (is_alive a.now (lookup a.key (prune a.now seen)))) [
          | inl l ↦ rw (e, m, l) kept
          | inr l ↦
              rw (e, m, l)
                (elim (Bool-cases (text_eq a.key key)) [
                  | inl q ↦
                      let same : a.key ≡ key = (text_eq_iff a.key key).0 q in
                      let dead : is_alive a.now (lookup key (prune a.now seen)) ≡ false =
                        subst (λ x. is_alive a.now (lookup x (prune a.now seen)) ≡ false) same l in
                      ground (arith, rw kept at dead, h)
                  | inr q ↦ rw (lookup-put_other key a.key a.expires (prune a.now seen) q) kept
                ])
        ]
      ]
    ]

claims-lookup :
    (key : String) (expires : ℕ) (later : List Attempt) (seen : Seen)
    → lookup key seen ≡ some expires
    → All (λ a. a.now < expires) later
    → lookup key (claims later seen) ≡ some expires
unfolding claims
claims-lookup key expires [] seen f h = f
claims-lookup key expires (a ∷ later) seen f h =
    claims-lookup key expires later (claim a.ended a.now a.key a.expires seen).1
      (claim-lookup key expires a seen f h.0) h.1

alive_refused :
    (now expires again : ℕ) (key : String) (seen : Seen)
    → is_empty key ≡ false
    → lookup key seen ≡ some expires
    → now < expires
    → (claim false now key again seen).0 ≡ ok false
unfolding claim
alive_refused now expires again key seen m f h =
    let kept = lookup-prune key now expires seen f h in
    let live : ltb now expires ≡ true = ground (arith, h) in rw (m, kept, live) refl

claimed-lookup :
    (now expires : ℕ) (key : String) (seen : Seen)
    → (claim false now key expires seen).0 ≡ ok true
    → (is_empty key ≡ false) × (lookup key (claim false now key expires seen).1 ≡ some expires)
unfolding claim
claimed-lookup now expires key seen c = elim (Bool-cases (is_empty key)) [
  | inl m ↦ let no = rw m at c in cc
  | inr m ↦ elim (Bool-cases (is_alive now (lookup key (prune now seen)))) [
    | inl l ↦ let no = rw (m, l) at c in cc
    | inr l ↦ rw (m, l) (refl, lookup-put key expires (prune now seen))
  ]
]

-- No replay: once `MemoryNonceStore.Claim` has accepted a nonce, it refuses the same nonce at every
-- instant before the expiry it was claimed with, whatever other claims, failed ones included, come
-- between, as long as they too are made before that expiry.
pub claim_once :
    (now expires at again : ℕ) (key : String) (seen : Seen) (between : List Attempt)
    → (claim false now key expires seen).0 ≡ ok true
    → All (λ a. a.now < expires) between
    → at < expires
    → (claim false at key again (claims between (claim false now key expires seen).1)).0 ≡ ok false
claim_once now expires at again key seen between c h before =
    let (m, f) = claimed-lookup now expires key seen c in
    alive_refused at expires again key (claims between (claim false now key expires seen).1) m
      (claims-lookup key expires between (claim false now key expires seen).1 f h) before
