-- ===== src/Examples/Password.antt =====
-- Passwords at concrete inputs.
use auth.Base.{[], arith, codes, if◌then◌else◌, none, refl, some, ◌%◌, ◌++◌, ◌/◌, ◌==◌, ◌∷◌, ◌≡◌}
use auth.Password.Policy.{
  validate, default_password_policy, fault_if, contains_string, contains_username, contains_email,
  contains_email, no_uppercase, no_number, too_short,
}
use auth.Password.Generator.{Draws, generate}
use auth.Password.Swap.{IsBounded}
use auth.Password.Strength.{validate-generate}

-- Every third draw fails, the others take the middle.
abbrev draws : Draws
draws n bound = if n % 3 == 0 then none else if bound == 0 then none else some (bound / 2)

draws-IsBounded : IsBounded draws
draws-IsBounded n bound k drawn = ground arith

weak :
    validate default_password_policy (codes "secret") (codes "ann") (codes "ann@bank.id")
    ≡ too_short ∷ no_uppercase ∷ no_number ∷ []
unfolding validate default_password_policy
weak = refl

validate-generate_example :
    validate default_password_policy (generate draws) (codes "ann") (codes "ann@bank.id")
    ≡ fault_if (contains_string (generate draws) (codes "ann")) contains_username
      ++ fault_if (contains_string (generate draws) (codes "ann@bank.id")) contains_email
validate-generate_example =
    validate-generate draws draws-IsBounded (codes "ann") (codes "ann@bank.id")
