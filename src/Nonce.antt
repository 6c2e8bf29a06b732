-- ===== src/Nonce.antt =====
-- The process-local nonce store of request authentication (services/pulse/internal/security/signature.go).
-- The map is an association list; the clock is an argument, since each claim reads it once.
pub mod Replay
mod Tests
use meta_pulse.Prelude.{
  ℕ, Bool, true, false, ◌&&◌, not, ltb, Option, none, some, String, List, [], ◌∷◌, if◌then◌else◌,
}
use meta_pulse.Prelude.Text.{text_eq, is_empty}
use meta_pulse.Prelude.Result.{Result, ok, err}

pub data NonceError : Type 0 where
  context_ended empty_nonce : NonceError

-- `seen`: a nonce with the instant at which it expires.
abbrev pub Seen : Type 0
Seen = List (String × ℕ)

-- `expiry, ok := s.seen[key]`
unfoldable pub lookup : String → Seen → Option ℕ
lookup key [] = none
lookup key ((k, expiry) ∷ rest) = if text_eq k key then some expiry else lookup key rest

-- `s.seen[key] = expiresAt`
unfoldable pub put : String → ℕ → Seen → Seen
put key expires [] = (key, expires) ∷ []
put key expires ((k, expiry) ∷ rest) =
    let others = put key expires rest in
    if text_eq k key then (key, expires) ∷ rest else (k, expiry) ∷ others

-- The loop that deletes what is not after `now`.
unfoldable pub prune : ℕ → Seen → Seen
prune now [] = []
prune now ((k, expiry) ∷ rest) =
    let others = prune now rest in if not (ltb now expiry) then others else (k, expiry) ∷ others

abbrev pub is_alive : ℕ → Option ℕ → Bool
is_alive now none = false
is_alive now (some expiry) = ltb now expiry

-- `MemoryNonceStore.Claim`; `ended` says that the context has ended.
unfoldable pub claim : Bool → ℕ → String → ℕ → Seen → Result NonceError Bool × Seen
claim ended now key expires seen =
    if ended
    then (err context_ended, seen)
    else if is_empty key
    then (err empty_nonce, seen)
    else if is_alive now (lookup key (prune now seen))
    then (ok false, prune now seen)
    else (ok true, put key expires (prune now seen))

-- One call of `Claim`.
pub record Attempt : Type 0 where
  pub ended : Bool
  pub now : ℕ
  pub key : String
  pub expires : ℕ

unfoldable pub claims : List Attempt → Seen → Seen
claims [] seen = seen
claims (a ∷ rest) seen = claims rest (claim a.ended a.now a.key a.expires seen).1
