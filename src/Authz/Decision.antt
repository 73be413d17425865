-- ===== src/Authz/Decision.antt =====
-- `AuthorizationResult` of internal/domain/authz.go, with the reason texts as data.
use auth.Base.{Bool, List, String, []}
use auth.Authz.Domain.{FieldMask}
use auth.Authz.Window.{Reason}

pub data DecisionReason : Type 0 where
  empty_auth_context permission_granted all_layers_passed : DecisionReason
  permission_denied : String → DecisionReason
  time_allowed time_denied : Reason → DecisionReason
  fail_open fail_closed : DecisionReason
  abac_allowed abac_denied : DecisionReason
  scope_all scope_assigned scope_not_assigned scope_own scope_unknown : DecisionReason

pub record AuthorizationResult : Type 0 where
  pub allowed : Bool
  pub reason : DecisionReason
  pub field_masks : List FieldMask

-- `&domain.AuthorizationResult{Allowed: …, Reason: …}`
unfoldable pub verdict : Bool → DecisionReason → AuthorizationResult
verdict allowed reason = record { allowed = allowed; reason = reason; field_masks = [] }
