-- ===== src/Audit/Log.antt =====
-- internal/service/audit/service.go, over the table audit_logs, for a database that answers. A time is in
-- seconds, and a missing value of an entry is `none`.
use auth.Base.{
  Bool, Effect, List, Option, Result, String, Uuid, [], any, drop, fail, filter, if◌then◌else◌, leb,
  length, ltb, negsuc, none, ok, pos, some, str_eq, take, true, ℕ, ℤ, ◌&&◌, ◌++◌, ◌==◌, ◌||◌, ◌∷◌,
}
use auth.Workflow.Envelope.{Fields, no_field}

pub record AuditLog : Type 0 where
  pub id : Uuid
  pub org_id : Uuid
  pub actor_id : Uuid
  pub actor_email : String
  pub action : String
  pub resource_type : String
  pub resource_id : String
  pub old_value : Fields
  pub new_value : Fields
  pub ip_address : String
  pub user_agent : String
  pub created_at : ℕ

-- The filter by branch is in no query.
pub record AuditLogFilter : Type 0 where
  pub org_id : Option Uuid
  pub actor_id : Option Uuid
  pub action : String
  pub resource_type : String
  pub resource_id : String
  pub branch_id : Option Uuid
  pub from_date : Option ℕ
  pub to_date : Option ℕ
  pub limit : ℤ
  pub offset : ℤ

pub record LogInput : Type 0 where
  pub org_id : Uuid
  pub actor_id : Uuid
  pub actor_email : String
  pub action : String
  pub resource_type : String
  pub resource_id : String
  pub old_value : Option Fields
  pub new_value : Option Fields
  pub ip_address : String
  pub user_agent : String

pub data AuditError : Type 0 where
  duplicate_id negative_offset : AuditError

abbrev pub same_id : Option Uuid → Uuid → Bool
same_id none id = true
same_id (some wanted) id = id == wanted

abbrev pub same_text : String → String → Bool
same_text wanted given = str_eq wanted "" || str_eq given wanted

abbrev pub is_from : Option ℕ → ℕ → Bool
is_from none time = true
is_from (some from) time = leb from time

abbrev pub is_until : Option ℕ → ℕ → Bool
is_until none time = true
is_until (some until) time = leb time until

-- The conditions of the WHERE clause.
unfoldable pub matches : AuditLogFilter → AuditLog → Bool
matches f log =
    same_id f.org_id log.org_id
    && same_id f.actor_id log.actor_id
    && same_text f.action log.action
    && same_text f.resource_type log.resource_type
    && same_text f.resource_id log.resource_id
    && is_from f.from_date log.created_at
    && is_until f.to_date log.created_at

unfoldable pub limit_of : ℤ → ℕ
limit_of (pos n) = if n == 0 then 50 else if ltb 100 n then 100 else n
limit_of (negsuc n) = 50

-- The entries that the conditions find.
abbrev pub found_by : AuditLogFilter → List AuditLog → List AuditLog
found_by f rows = filter (matches f) rows

-- `PGStore.List`: a page and how many entries there are in all.
abbrev pub page_at : ℤ → ℕ → List AuditLog → Result AuditError (List AuditLog × ℕ)
page_at (negsuc n) limit found = fail negative_offset
page_at (pos n) limit found = ok (take limit (drop n found), length found)

-- `sorts` is the order in which the query finds the entries: `ORDER BY created_at DESC` leaves open
-- which of two entries of the same time is the first.
unfoldable pub list :
    (List AuditLog → List AuditLog)
    → AuditLogFilter
    → Effect AuditError (List AuditLog) (List AuditLog × ℕ)
unfolding matches limit_of
list sorts f rows = (page_at f.offset (limit_of f.limit) (sorts (found_by f rows)), rows)

abbrev or_empty : Option Fields → Fields
or_empty none = no_field
or_empty (some m) = m

unfoldable pub entry : ℕ → Uuid → LogInput → AuditLog
entry now id i = record {
  id = id;
  org_id = i.org_id;
  actor_id = i.actor_id;
  actor_email = i.actor_email;
  action = i.action;
  resource_type = i.resource_type;
  resource_id = i.resource_id;
  old_value = or_empty i.old_value;
  new_value = or_empty i.new_value;
  ip_address = i.ip_address;
  user_agent = i.user_agent;
  created_at = now;
}

-- `PGStore.Create`
unfoldable pub create_entry : AuditLog → Effect AuditError (List AuditLog) (Unit {0})
create_entry e rows =
    if any (λ r. r.id == e.id) rows then (fail duplicate_id, rows) else (ok tt, rows ++ e ∷ [])

-- `Service.Log`
unfoldable pub log : ℕ → Uuid → LogInput → Effect AuditError (List AuditLog) (Unit {0})
unfolding entry create_entry
log now id i = create_entry (entry now id i)
