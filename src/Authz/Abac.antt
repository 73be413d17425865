-- ===== src/Authz/Abac.antt =====
-- internal/service/authz/abac.go: the policy evaluator, and `ABACPolicy` of internal/domain/authz.go.
-- Conditions are a map of JSON values; a map is the list of its pairs, in some order of iteration.
pub mod Deny
pub mod Order
pub mod Masks
use auth.Text.{Signed}
use auth.Authz.Decision.{AuthorizationResult, abac_allowed, abac_denied}
use Prim.Native.String.{len}
use auth.Base.{
  Bool, List, Option, String, Uuid, [], all, false, filter, if◌then◌else◌, leb, nil_uuid, none, not,
  some, str_eq, true, ℕ, ◌&&◌, ◌*◌, ◌++◌, ◌==◌, ◌||◌, ◌∷◌,
}
use auth.Authz.Domain.{
  AuthContext, FieldMask, Result, bad_effect, name_length, ok, org_id_required, require, ◌>>=◌,
  ◌>>◌,
}

-- `interface{}` as the JSON decoder fills it; a float64 is its bit pattern.
mutual
  pub data Value : Type 0 where
    null : Value
    text : String → Value
    int : Signed → Value
    float : ℕ → Value
    bool : Bool → Value
    array : Values → Value
    object : Fields → Value

  pub data Values : Type 0 where
    nil : Values
    cons : Value → Values → Values

  pub data Fields : Type 0 where
    end : Fields
    field : String → Value → Fields → Fields

pub record Policy : Type 0 where
  pub id : Uuid
  pub org_id : Uuid
  pub name : String
  pub description : String
  pub effect : String
  pub conditions : List (String × Value)
  pub fields : List String

abbrev pub effect_allow : String
effect_allow = "allow"

abbrev pub effect_deny : String
effect_deny = "deny"

-- `ABACPolicy.Validate`
unfoldable pub validate_policy : Policy → Result (Unit {0})
validate_policy p = do
  require org_id_required (not (p.org_id == nil_uuid))
  require name_length (leb 2 (len p.name) && leb (len p.name) 100)
  require bad_effect (str_eq p.effect effect_allow || str_eq p.effect effect_deny)

unfoldable pub condition : String → List (String × Value) → Option Value
condition key [] = none
condition key ((k, v) ∷ rest) = if str_eq k key then some v else condition key rest

-- A text equal to the permission, or "*".
unfoldable pub names_permission : String → Value → Bool
names_permission permission (text s) = str_eq s permission || str_eq s "*"
names_permission permission _ = false

any_names_permission : String → Values → Bool
unfolding names_permission
any_names_permission permission nil = false
any_names_permission permission (cons v vs) =
    names_permission permission v || any_names_permission permission vs

permission_matches : String → Option Value → Bool
unfolding any_names_permission names_permission
permission_matches permission none = true
permission_matches permission (some (text s)) = names_permission permission (text s)
permission_matches permission (some (array vs)) = any_names_permission permission vs
permission_matches permission (some _) = false

unfoldable pub matches_permission : Policy → String → Bool
unfolding permission_matches
matches_permission p permission =
    permission_matches permission (condition "permission" p.conditions)

-- The comparison with an actual value that is a text, or nil: the evaluator passes nothing else. So the
-- cases of a number and a Boolean fail their type assertion, and `reflect.DeepEqual`, which the
-- nulls and objects reach, holds of nil and nil alone.
unfoldable mutual
  pub compare_values : Value → Option String → Bool
  compare_values (text s) none = str_eq s "*"
  compare_values (text s) (some a) = str_eq s "*" || str_eq s a
  compare_values (int n) a = false
  compare_values (float n) a = false
  compare_values (bool b) a = false
  compare_values (array vs) a = compare_any vs a
  compare_values null none = true
  compare_values null (some a) = false
  compare_values (object o) a = false

  pub compare_any : Values → Option String → Bool
  compare_any nil a = false
  compare_any (cons v vs) a = compare_values v a || compare_any vs a

unfoldable pub attribute : String → List (String × String) → String
attribute key [] = ""
attribute key ((k, v) ∷ rest) = if str_eq k key then v else attribute key rest

-- A missing key of a Go map of texts reads as the empty text; a nil map leaves `actual` nil.
unfoldable pub actual_attribute : String → Option (List (String × String)) → Option String
unfolding attribute
actual_attribute key none = none
actual_attribute key (some attrs) = some (attribute key attrs)

-- The `switch` on the key.
unfoldable pub actual_value : (Uuid → String) → String → AuthContext → Option String
unfolding actual_attribute
actual_value uuid_string key ctx =
    if str_eq key "branch_scope"
    then some ctx.branch_scope
    else if str_eq key "user_id"
    then some (uuid_string ctx.user_id)
    else if str_eq key "org_id"
    then some (uuid_string ctx.org_id)
    else if str_eq key "branch_id"
    then some (uuid_string ctx.branch_id)
    else actual_attribute key ctx.attributes

-- One round of the loop of `matchesConditions`.
unfoldable pub condition_holds : (Uuid → String) → AuthContext → String × Value → Bool
condition_holds uuid_string ctx (key, expected) =
    str_eq key "permission"
    || str_eq key "effect"
    || compare_values expected (actual_value uuid_string key ctx)

unfoldable pub matches_conditions : (Uuid → String) → List (String × Value) → AuthContext → Bool
matches_conditions uuid_string conditions ctx = all (condition_holds uuid_string ctx) conditions

unfoldable pub is_applicable : (Uuid → String) → AuthContext → String → Policy → Bool
is_applicable uuid_string ctx permission p =
    matches_permission p permission && matches_conditions uuid_string p.conditions ctx

unfoldable pub mask_fields : String → List String → List FieldMask
mask_fields description [] = []
mask_fields description (f ∷ fs) =
    record { field = f; mask_value = "***"; reason = description } ∷ mask_fields description fs

-- The second loop: whether a policy denies, and the masks of all of them.
unfoldable pub collect : Bool → List FieldMask → List Policy → Bool × List FieldMask
unfolding mask_fields
collect denied masks [] = (denied, masks)
collect denied masks (p ∷ ps) =
    collect (denied || str_eq p.effect effect_deny) (masks ++ mask_fields p.description p.fields) ps

unfoldable pub conclude : Bool × List FieldMask → AuthorizationResult
conclude (true, masks) = record { allowed = false; reason = abac_denied; field_masks = masks }
conclude (false, masks) = record { allowed = true; reason = abac_allowed; field_masks = masks }

-- `policies` is the answer of the policy store.
unfoldable pub evaluate :
    (Uuid → String) → Result (List Policy) → AuthContext → String → Result AuthorizationResult
evaluate uuid_string policies ctx permission = do
  ps ← policies
  ok (conclude (collect false [] (filter (is_applicable uuid_string ctx permission) ps)))

-- `data` of `ApplyFieldMasks`: a map from texts; a mask replaces the value of a key that is there.
unfoldable pub mask_key : FieldMask → List (String × Value) → List (String × Value)
mask_key m [] = []
mask_key m ((k, v) ∷ rest) =
    (k, if str_eq k m.field then text m.mask_value else v) ∷ mask_key m rest

unfoldable pub apply_field_masks : List (String × Value) → List FieldMask → List (String × Value)
unfolding mask_key
apply_field_masks fields [] = fields
apply_field_masks fields (m ∷ ms) = apply_field_masks (mask_key m fields) ms
