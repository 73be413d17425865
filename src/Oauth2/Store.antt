-- ===== src/Oauth2/Store.antt =====
-- The interface `AuthCodeStore` of internal/service/oauth2/authcode.go, with what its users rely on, and
-- the table of internal/store/postgres/oauth2.go that implements it.
use auth.Base.{
  Bool, Bool-cases, List, Option, Option-cases, String, [], ap, arith, eq_refl, false, filter,
  if◌then◌else◌, inl, inr, none, not, refl, some, str_eq, true, ◌∷◌, ◌≡◌,
}
use auth.Oauth2.Data.{AuthCode}

abbrev pub marked : AuthCode → AuthCode
marked a = record a { code_used = true }

-- A write returns the new state and whether it was accepted; `none` is an error.
pub record AuthCodeStore : Type 1 where
  pub State : Type 0
  pub create : AuthCode → State → State × Bool
  pub get_by_code : String → State → Option AuthCode
  pub mark_used : String → State → State × Bool
  pub delete : String → State → State × Bool

pub record Lawful (c : AuthCodeStore) : Type 0 where
  pub get-create :
      (a : AuthCode) (s : c.State)
      → (c.create a s).1 ≡ true
      → c.get_by_code a.code (c.create a s).0 ≡ some a
  pub get-mark_used :
      (code : String) {a : AuthCode} (s : c.State)
      → c.get_by_code code s ≡ some a
      → c.get_by_code code (c.mark_used code s).0 ≡ some (marked a)
  pub get-delete : (code : String) (s : c.State) → c.get_by_code code (c.delete code s).0 ≡ none

-- The rows of `oauth2_authorization_codes`; `code` is unique.
abbrev pub Rows : Type 0
Rows = List AuthCode

-- `SELECT … WHERE code = $1`; a missing row is an error.
unfoldable pub get_row : String → Rows → Option AuthCode
get_row code [] = none
get_row code (a ∷ rows) =
    let rest = get_row code rows in if str_eq a.code code then some a else rest

-- `UPDATE … SET code_used = true WHERE code = $1`
unfoldable pub mark_rows : String → Rows → Rows
mark_rows code [] = []
mark_rows code (a ∷ rows) = (if str_eq a.code code then marked a else a) ∷ mark_rows code rows

-- `DELETE … WHERE code = $1`
unfoldable pub delete_rows : String → Rows → Rows
delete_rows code rows = filter (λ a. not (str_eq a.code code)) rows

unfoldable insert_code : Option AuthCode → Bool → AuthCode → Rows → Rows × Bool
insert_code (some taken) admitted a rows = (rows, false)
insert_code none false a rows = (rows, false)
insert_code none true a rows = (a ∷ rows, true)

-- `INSERT`: refused under a code that is taken, and where the types and foreign keys of the columns
-- do not admit the row.
unfoldable pub insert_row : (AuthCode → Bool) → AuthCode → Rows → Rows × Bool
unfolding get_row insert_code
insert_row admits a rows = insert_code (get_row a.code rows) (admits a) a rows

-- A database that answers.
abbrev pub postgres : (AuthCode → Bool) → AuthCodeStore
postgres admits = record {
  State = Rows;
  create = insert_row admits;
  get_by_code = get_row;
  mark_used = λ code rows. (mark_rows code rows, true);
  delete = λ code rows. (delete_rows code rows, true);
}

get-insert :
    (admits : AuthCode → Bool) (a : AuthCode) (rows : Rows)
    → (insert_row admits a rows).1 ≡ true
    → get_row a.code (insert_row admits a rows).0 ≡ some a
unfolding insert_row insert_code get_row
get-insert admits a rows accepted = elim (Option-cases (get_row a.code rows)) [
  | inl free ↦ elim (Bool-cases (admits a)) [
    | inl fits ↦ rw (get_row, free) (rw fits (rw (eq_refl a.code) refl))
    | inr bars ↦ absurd (ground (arith, free, bars))
  ]
  | inr (b, taken) ↦ absurd (ground (arith, taken))
]

get-mark :
    (code : String) {a : AuthCode} (rows : Rows)
    → get_row code rows ≡ some a
    → get_row code (mark_rows code rows) ≡ some (marked a)
unfolding get_row mark_rows
get-mark code [] found = absurd (ground arith)
get-mark code {a} (b ∷ rows) found = elim (Bool-cases (str_eq b.code code)) [
  | inl same ↦ let here : b ≡ a = ground arith in rw same (rw same (ap (λ x. some (marked x)) here))
  | inr other ↦ rw other (rw other (get-mark code {a = a} rows (ground arith)))
]

get-delete_rows : (code : String) (rows : Rows) → get_row code (delete_rows code rows) ≡ none
unfolding get_row delete_rows
get-delete_rows code [] = refl
get-delete_rows code (a ∷ rows) = elim (Bool-cases (str_eq a.code code)) [
  | inl same ↦ rw same (get-delete_rows code rows)
  | inr other ↦ rw other (rw other (get-delete_rows code rows))
]

-- The table of authorization codes, for a database that answers, keeps the contract that the
-- service relies on: a code that is written, marked as used or deleted is read back so.
pub postgres-Lawful : (admits : AuthCode → Bool) → Lawful (postgres admits)
postgres-Lawful admits = record {
  get-create = λ a rows accepted. get-insert admits a rows accepted;
  get-mark_used = λ code rows found. get-mark code rows found;
  get-delete = λ code rows. get-delete_rows code rows;
}
