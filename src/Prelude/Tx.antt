-- ===== src/Prelude/Tx.antt =====
-- A transaction: a function on the tables with an error as a value, and what it ensures.
use mathlib.Core.Path.{◌≡◌, subst}
use mathlib.Core.Bool.{Bool, true, false}
use meta_pulse.Prelude.Tests.{if◌then◌else◌}
use meta_pulse.Prelude.Result.{Result, ok, err}

abbrev pub Tx : Type 0 → Type 0 → Type 0 → Type 0
Tx S E T = S → Result E T × S

-- What follows a call: its error ends the transaction.
abbrev pub after : {S E T U : Type 0} → Result E T × S → (T → Tx S E U) → Result E U × S
after (err e, s) next = (err e, s)
after (ok x, s) next = next x s

infixl 5 ◌>>=◌ ◌>>◌
abbrev pub ◌>>=◌ : {S E T U : Type 0} → Tx S E T → (T → Tx S E U) → Tx S E U
◌>>=◌ m next s = after (m s) next

abbrev pub ◌>>◌ : {S E U : Type 0} → Tx S E (Unit {0}) → Tx S E U → Tx S E U
◌>>◌ m rest s = after (m s) (λ _. rest)

abbrev pub done : {S E T : Type 0} → T → Tx S E T
done x s = (ok x, s)

abbrev pub refuse : {S E T : Type 0} → E → Tx S E T
refuse e s = (err e, s)

-- A pure step, with its error passed on.
abbrev pub lift : {S E T : Type 0} → Result E T → Tx S E T
lift (err e) s = (err e, s)
lift (ok x) s = (ok x, s)

-- `if bad { return …, e }`
abbrev pub refuse_if : {S E : Type 0} → Bool → E → Tx S E (Unit {0})
refuse_if true e s = (err e, s)
refuse_if false e s = (ok tt, s)

-- `UnitOfWork.Do`: an error, of the body or of the commit, undoes the writes.
abbrev pub finish : {S E T : Type 0} → Bool → E → S → Result E T × S → Result E T × S
finish down e start (err x, s) = (err x, start)
finish down e start (ok x, s) = if down then (err e, start) else (ok x, s)

-- What holds of a value and the tables if the transaction returns one.
abbrev pub Ensures : {S E T : Type 0} → (T → S → Type 0) → Result E T × S → Type 0
Ensures P (err e, s) = Unit
Ensures P (ok x, s) = P x s

pub Ensures-after :
    {S E T U : Type 0} (P : T → S → Type 0) (Q : U → S → Type 0) (r : Result E T × S)
    (next : T → Tx S E U)
    → Ensures P r
    → ((x : T) (s : S) → P x s → Ensures Q (next x s))
    → Ensures Q (after r next)
Ensures-after P Q (err e, s) next h f = tt
Ensures-after P Q (ok x, s) next h f = f x s h

pub Ensures-weaken :
    {S E T : Type 0} (P Q : T → S → Type 0) (r : Result E T × S)
    → Ensures P r
    → ((x : T) (s : S) → P x s → Q x s)
    → Ensures Q r
Ensures-weaken P Q (err e, s) h f = tt
Ensures-weaken P Q (ok x, s) h f = f x s h

-- The transaction returned this value.
pub Ensures-at :
    {S E T : Type 0} (P : T → S → Type 0) {r : Result E T × S} {x : T} {s : S}
    → r ≡ (ok x, s)
    → Ensures P r
    → P x s
Ensures-at P q h = subst (Ensures P) q h
