-- ===== src/Branch/Data.antt =====
-- Branches and the assignments of users (internal/domain/entity.go), and the table of branches
-- (internal/store/postgres/branch.go), for a database that answers. A time is in seconds.
use auth.Base.{
  Bool, Effect, List, Option, String, Uuid, [], any, fail, filter, if◌then◌else◌, map, not, ok,
  str_eq, ℕ, ◌&&◌, ◌++◌, ◌==◌, ◌||◌, ◌∷◌,
}
use auth.Account.Data.{first_row, is_live}

pub record Branch : Type 0 where
  pub id : Uuid
  pub org_id : Uuid
  pub branch_code : String
  pub name : String
  pub active : Bool
  pub updated_at : ℕ

pub record UserBranchAssignment : Type 0 where
  pub id : Uuid
  pub user_id : Uuid
  pub branch_id : Uuid
  pub branch_code : String
  pub branch_name : String
  pub org_id : Uuid
  pub role : String
  pub is_primary : Bool
  pub assigned_by : Uuid
  pub assigned_at : ℕ
  pub revoked_at : Option ℕ
  pub revoked_by : Option Uuid

unfoldable pub is_assigned : UserBranchAssignment → Bool
is_assigned a = is_live a.revoked_at

-- The errors of the database: a unique constraint, a foreign key, and a row that is not there.
pub data DbError : Type 0 where
  duplicate_key no_reference no_rows : DbError

abbrev pub has_branch : Uuid → List Branch → Bool
has_branch id = any (λ b. b.id == id)

unfoldable pub create_branch : Branch → Effect DbError (List Branch) (Unit {0})
create_branch b rows =
    if any (λ o. o.id == b.id || o.org_id == b.org_id && str_eq o.branch_code b.branch_code) rows
    then (fail duplicate_key, rows)
    else (ok tt, rows ++ b ∷ [])

unfoldable pub update_branch : Branch → Effect DbError (List Branch) (Unit {0})
update_branch b rows = (
  ok tt,
  map
      (λ o.
        if o.id == b.id && o.org_id == b.org_id
        then record o { name = b.name; active = b.active; updated_at = b.updated_at }
        else o)
      rows,
)

unfoldable pub delete_branch : Uuid → Uuid → Effect DbError (List Branch) (Unit {0})
delete_branch id org rows = (ok tt, filter (λ o. not (o.id == id && o.org_id == org)) rows)

unfoldable pub get_branch : Uuid → Uuid → List Branch → Option Branch
get_branch id org = first_row (λ o. o.id == id && o.org_id == org)

unfoldable pub get_branch_by_code : Uuid → String → List Branch → Option Branch
get_branch_by_code org code = first_row (λ o. o.org_id == org && str_eq o.branch_code code)
