-- ===== src/Workflow/Envelope.antt =====
-- The body of a callback (internal/api/rest/wfcallback/wfcallback.go). Decoding is a parameter: `none`
-- is a body that is no JSON.
use auth.Base.{
  Bool, Effect, List, Option, String, Uuid, [], false, found_or, if◌then◌else◌, nil_uuid, none,
  return, some, str_eq, ℕ, ◌>>=◌, ◌∷◌,
}

-- A decoded value; the fields of an object are in no order that matters.
mutual
  pub data Json : Type 0 where
    null : Json
    text : String → Json
    flag : Bool → Json
    number : ℕ → Json
    array : Items → Json
    object : Fields → Json

  pub data Items : Type 0 where
    none_left : Items
    item : Json → Items → Items

  pub data Fields : Type 0 where
    no_field : Fields
    field : String → Json → Fields → Fields

abbrev pub field_of : String → Fields → Json
field_of key no_field = null
field_of key (field name value rest) =
    let later = field_of key rest in if str_eq name key then value else later

abbrev pub as_text : Json → Option String
as_text (text s) = some s
as_text other = none

unfoldable pub data_str : Fields → String → String
data_str m key = elim (as_text (field_of key m)) [ none ↦ "" | some s ↦ s ]

unfoldable pub data_str_ptr : Fields → String → Option String
data_str_ptr m key = as_text (field_of key m)

abbrev as_flag : Json → Bool
as_flag (flag b) = b
as_flag other = false

unfoldable pub data_bool : Fields → String → Bool
data_bool m key = as_flag (field_of key m)

abbrev as_number : Json → ℕ
as_number (number n) = n
as_number other = 0

-- A number is the whole part that `int(v)` keeps, not below zero.
unfoldable pub data_int : Fields → String → ℕ
data_int m key = as_number (field_of key m)

abbrev objects_of : Items → List Fields
objects_of none_left = []
objects_of (item (object m) rest) = m ∷ objects_of rest
objects_of (item other rest) = objects_of rest

abbrev maps_of : Json → List Fields
maps_of (array items) = objects_of items
maps_of other = []

unfoldable pub data_maps : Fields → String → List Fields
data_maps m key = maps_of (field_of key m)

abbrev texts_of : Items → List String
texts_of none_left = []
texts_of (item (text s) rest) = let more = texts_of rest in if str_eq s "" then more else s ∷ more
texts_of (item other rest) = texts_of rest

abbrev slice_of : Json → List String
slice_of (array items) = texts_of items
slice_of other = []

unfoldable pub data_str_slice : Fields → String → List String
data_str_slice m key = slice_of (field_of key m)

-- The answers, each with its status: 400, or 500, which makes workflow7 repeat the step.
pub data Refusal : Type 0 where
  invalid_request org_id_required invalid_id primary_branch_id_required : Refusal
  internal_error : Refusal

pub record Envelope : Type 0 where
  pub body : Fields
  pub org_id : Uuid
  pub actor_id : Uuid
  pub actor_email : String

abbrev or_nil : Option Uuid → Uuid
or_nil none = nil_uuid
or_nil (some id) = id

module _ (parse_uuid : String → Option Uuid) {S : Type 0} where
  unfoldable pub bind_wf_envelope : Option Fields → Effect Refusal S Envelope
  unfolding data_str
  bind_wf_envelope body = do
    m ← found_or invalid_request body
    org ← found_or org_id_required (parse_uuid (data_str m "org_id"))
    return (record {
      body = m;
      org_id = org;
      actor_id = or_nil (parse_uuid (data_str m "actor_id"));
      actor_email = data_str m "actor_email";
    })

  unfoldable pub param_id : String → Effect Refusal S Uuid
  param_id id = found_or invalid_id (parse_uuid id)

-- `uuid.Parse` on the texts of one field; a text that is no UUID is skipped.
unfoldable pub ids_in : (String → Option Uuid) → String → List Fields → List Uuid
unfolding data_str
ids_in parse key [] = []
ids_in parse key (m ∷ ms) = elim (parse (data_str m key)) [
  | none ↦ ids_in parse key ms
  | some id ↦ id ∷ ids_in parse key ms
]
