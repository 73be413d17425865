-- ===== src/Password/Policy.antt =====
-- The password policy (`PasswordPolicy` of internal/domain/entity.go). A password is its characters.
use auth.Base.{
  Bool, List, [], any, false, if◌then◌else◌, leb, length, ltb, not, true, ℕ, ◌&&◌, ◌++◌, ◌+◌, ◌==◌,
  ◌||◌, ◌∷◌,
}
use auth.Text.{contains}

pub record PasswordPolicy : Type 0 where
  pub min_length : ℕ
  pub require_uppercase : Bool
  pub require_lowercase : Bool
  pub require_number : Bool
  pub require_symbol : Bool
  pub max_age_days : ℕ
  pub history_count : ℕ
  pub password_cannot_contain_username : Bool
  pub password_cannot_contain_email : Bool

unfoldable pub default_password_policy : PasswordPolicy
default_password_policy = record {
  min_length = 8;
  require_uppercase = true;
  require_lowercase = true;
  require_number = true;
  require_symbol = false;
  max_age_days = 90;
  history_count = 5;
  password_cannot_contain_username = true;
  password_cannot_contain_email = true;
}

unfoldable pub is_uppercase : ℕ → Bool
is_uppercase c = leb b'A' c && leb c b'Z'

unfoldable pub is_lowercase : ℕ → Bool
is_lowercase c = leb b'a' c && leb c b'z'

unfoldable pub is_number : ℕ → Bool
is_number c = leb b'0' c && leb c b'9'

unfoldable pub is_symbol : ℕ → Bool
is_symbol c =
    (ltb c b'A' || ltb b'Z' c)
    && (ltb c b'a' || ltb b'z' c)
    && (ltb c b'0' || ltb b'9' c)
    && not (c == b' ')

unfoldable pub contains_string : List ℕ → List ℕ → Bool
contains_string s substr = ltb 0 (length substr) && contains s substr

-- The bytes of a character in UTF-8.
abbrev pub bytes_of : ℕ → ℕ
bytes_of c = if ltb c 0x80 then 1 else if ltb c 0x800 then 2 else if ltb c 0x10000 then 3 else 4

-- `len(s)`
abbrev pub byte_length : List ℕ → ℕ
byte_length [] = 0
byte_length (c ∷ s) = bytes_of c + byte_length s

pub data Fault : Type 0 where
  too_short no_uppercase no_lowercase no_number no_symbol contains_username contains_email : Fault

unfoldable pub fault_if : Bool → Fault → List Fault
fault_if true f = f ∷ []
fault_if false f = []

-- The faults in the order of the messages; none of them is no error.
unfoldable pub validate : PasswordPolicy → List ℕ → List ℕ → List ℕ → List Fault
unfolding fault_if contains_string is_uppercase is_lowercase is_number is_symbol
validate p password username email =
    fault_if (ltb (byte_length password) p.min_length) too_short
    ++ fault_if (p.require_uppercase && not (any is_uppercase password)) no_uppercase
    ++ fault_if (p.require_lowercase && not (any is_lowercase password)) no_lowercase
    ++ fault_if (p.require_number && not (any is_number password)) no_number
    ++ fault_if (p.require_symbol && not (any is_symbol password)) no_symbol
    ++ fault_if (p.password_cannot_contain_username && contains_string password username)
        contains_username
    ++ fault_if (p.password_cannot_contain_email && contains_string password email) contains_email
