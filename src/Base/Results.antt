-- ===== src/Base/Results.antt =====
-- The result of a call that can fail, and the effects of a function that changes a state: it takes
-- the state and returns its result with the new state.
use mathlib.Core.Path.{◌≡◌, refl, ap}
use mathlib.Core.Logic.{◌⊎◌, inl, inr}
use mathlib.Core.Bool.{Bool, true, false}
use mathlib.Core.Option.{Option, none, some}

pub data Result (E A : Type 0) : Type 0 where
  ok : A → Result E A
  fail : E → Result E A

abbrev pub Effect : Type 0 → Type 0 → Type 0 → Type 0
Effect E S A = S → Result E A × S

module _ {E : Type 0} where
  abbrev pub bind : {A B : Type 0} → (A → Result E B) → Result E A → Result E B
  bind next (ok a) = next a
  bind next (fail e) = fail e

  abbrev pub continue : {S A B : Type 0} → (A → Effect E S B) → Result E A × S → Result E B × S
  continue next (ok a, s) = next a s
  continue next (fail e, s) = (fail e, s)

  -- The next call is made unless this one returns an error, which is then returned.
  infixl 5 ◌>>=◌ ◌>>◌
  abbrev pub ◌>>=◌ : {S A B : Type 0} → Effect E S A → (A → Effect E S B) → Effect E S B
  ◌>>=◌ call next s = continue next (call s)

  abbrev pub ◌>>◌ : {S B : Type 0} → Effect E S (Unit {0}) → Effect E S B → Effect E S B
  ◌>>◌ call next s = continue (λ _. next) (call s)

  abbrev pub return : {S A : Type 0} → A → Effect E S A
  return a s = (ok a, s)

  abbrev pub throw : {S A : Type 0} → E → Effect E S A
  throw e s = (fail e, s)

  -- A call whose error the source drops: `_ = call()`, or no assignment at all.
  abbrev pub dropped : {D S A : Type 0} → Effect D S A → Effect E S (Unit {0})
  dropped call s = (ok tt, (call s).1)

  abbrev pub as_option : {A : Type 0} → Result E (Option A) → Option A
  as_option (ok o) = o
  as_option (fail e) = none

  -- A read whose error is treated as nothing found: `err != nil || x == nil`.
  abbrev pub quiet : {S A : Type 0} → Effect E S (Option A) → Effect E S (Option A)
  quiet call s = let (o, s') = call s in (ok (as_option o), s')

  -- `if condition { return error }`
  abbrev pub refuse_if : {S : Type 0} → Bool → E → Effect E S (Unit {0})
  refuse_if true e s = (fail e, s)
  refuse_if false e s = (ok tt, s)

  -- `if err != nil { return error }` on a value that may be missing.
  abbrev pub found_or : {S A : Type 0} → E → Option A → Effect E S A
  found_or e none s = (fail e, s)
  found_or e (some a) s = (ok a, s)

  pub Result-cases :
      {A : Type 0} (o : Result E A) → ((a : A) × (o ≡ ok a)) ⊎ ((e : E) × (o ≡ fail e))
  Result-cases (ok a) = inl (a, refl)
  Result-cases (fail e) = inr (e, refl)

  pub ok_injective : {A : Type 0} {a b : A} → ◌≡◌ {A = Result E A} (ok a) (ok b) → a ≡ b
  ok_injective {A} {a} e = ap {A = Result E A} (λ o. elim o [ ok x ↦ x | fail _ ↦ a ]) e
