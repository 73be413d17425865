-- ===== src/Authz/Domain.antt =====
-- internal/domain/authz.go: roles, permissions, ABAC policies and the context of a decision.
-- A time is a number, a pointer an `Option`.
use Prim.Native.String.{len}
use auth.Base.{
  Bool, List, Option, String, Uuid, false, if◌then◌else◌, inl, inr, leb, nil_uuid, none, not, refl,
  some, true, ℕ, ◌&&◌, ◌==◌, ◌≡◌, ◌⊎◌,
}

pub record Role : Type 0 where
  pub id : Uuid
  pub org_id : Uuid
  pub code : String
  pub name : String
  pub description : String
  pub is_default : Bool
  pub permissions : List String
  pub created_at : ℕ
  pub updated_at : ℕ

pub record Permission : Type 0 where
  pub id : Uuid
  pub code : String
  pub name : String
  pub description : String
  pub resource_type : String
  pub created_at : ℕ

pub record UserRole : Type 0 where
  pub id : Uuid
  pub user_id : Uuid
  pub role_id : Uuid
  pub branch_id : Option Uuid
  pub org_id : Uuid
  pub granted_by : Uuid
  pub granted_at : ℕ
  pub revoked_at : Option ℕ
  pub revoked_by : Option Uuid

unfoldable pub is_active : UserRole → Bool
is_active ur = elim ur.revoked_at [ none ↦ true | some _ ↦ false ]

-- `type BranchScope string`
abbrev pub branch_scope_own : String
branch_scope_own = "own"

abbrev pub branch_scope_assigned : String
branch_scope_assigned = "assigned"

abbrev pub branch_scope_all : String
branch_scope_all = "all"

pub record FieldMask : Type 0 where
  pub field : String
  pub mask_value : String
  pub reason : String

-- `Attributes` is the one nullable map here; `none` is nil.
pub record AuthContext : Type 0 where
  pub user_id : Uuid
  pub org_id : Uuid
  pub branch_id : Uuid
  pub roles : List String
  pub permissions : List String
  pub branch_scope : String
  pub field_masks : List FieldMask
  pub attributes : Option (List (String × String))

-- The `error` of the package's validations and stores.
pub data Error : Type 0 where
  org_id_required name_length code_length category_length bad_effect : Error
  role_exists permission_exists : Error
  store : String → Error
  enforcer : String → Error

-- A value, or the error that a Go function returns beside a nil value.
pub data Result {ℓ} (A : Type ℓ) : Type ℓ where
  ok : A → Result A
  err : Error → Result A

-- `if err != nil { return nil, err }`
infixl 5 ◌>>=◌ ◌>>◌
abbrev pub ◌>>=◌ {ℓ κ} : {A : Type ℓ} {B : Type κ} → Result A → (A → Result B) → Result B
◌>>=◌ (ok value) next = next value
◌>>=◌ (err failure) next = err failure

abbrev pub ◌>>◌ {ℓ} : {B : Type ℓ} → Result (Unit {0}) → Result B → Result B
◌>>◌ (ok done) next = next
◌>>◌ (err failure) next = err failure

-- `if !test { return failure }`
abbrev pub require : Error → Bool → Result (Unit {0})
require failure test = if test then ok tt else err failure

pub Result-cases {ℓ} :
    {A : Type ℓ} (r : Result A) → ((a : A) × (r ≡ ok a)) ⊎ ((e : Error) × (r ≡ err e))
Result-cases (ok a) = inl (a, refl)
Result-cases (err e) = inr (e, refl)

-- `Role.Validate`; `len` counts bytes, as Go's does.
unfoldable pub validate_role : Role → Result (Unit {0})
validate_role r = do
  require org_id_required (not (r.org_id == nil_uuid))
  require name_length (leb 2 (len r.name) && leb (len r.name) 100)
