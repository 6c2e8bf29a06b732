-- ===== src/Nonce/Tests.antt =====
-- One nonce claimed twice.
use meta_pulse.Prelude.{◌≡◌, refl, [], ◌∷◌, true, false, arith}
use meta_pulse.Prelude.Result.{ok}
use meta_pulse.Nonce.{claim, claims, lookup, put, prune, Attempt}
use meta_pulse.Nonce.Replay.{claim_once}

abbrev other : Attempt
other = record { ended = false; now = 12; key = "b"; expires = 40 }

-- After its expiry the nonce is accepted again.
claim_expired :
    (claim false 31 "a" 60 (claims (other ∷ []) (claim false 10 "a" 30 []).1)).0 ≡ ok true
unfolding claim claims lookup put prune
claim_expired = refl

claim_once_example :
    (claim false 29 "a" 60 (claims (other ∷ []) (claim false 10 "a" 30 []).1)).0 ≡ ok false
unfolding claim lookup prune
claim_once_example = claim_once 10 30 29 60 "a" [] (other ∷ []) refl (omega arith, tt) (omega arith)
