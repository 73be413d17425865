-- ===== src/Examples/Abac.antt =====
-- Two policies on accounts: a mask for one branch, and a denial for another.
use auth.Base.{String, Uuid, [], any, filter, if◌then◌else◌, not, refl, true, ◌&&◌, ◌==◌, ◌∷◌, ◌≡◌}
use auth.Authz.Domain.{ok}
use auth.Authz.Decision.{AuthorizationResult, abac_allowed}
use auth.Authz.Abac.{
  Policy, actual_value, array, collect, compare_values, conclude, condition, condition_holds, cons,
  evaluate, is_applicable, matches_conditions, matches_permission, names_permission, nil, text,
}
use auth.Authz.Abac.Deny.{denies, evaluate_decides, masks_of}
use auth.Examples.Window.{caller}

abbrev masking : Policy
masking = record {
  id = 1;
  org_id = 1;
  name = "mask balances";
  description = "no balances";
  effect = "allow";
  conditions =
      ("permission", array (cons (text "account:read") nil)) ∷ ("branch_id", text "1") ∷ [];
  fields = "balance" ∷ [];
}

abbrev denying : Policy
denying = record masking {
  id = 2;
  effect = "deny";
  conditions = ("branch_id", text "2") ∷ [];
  fields = [];
}

abbrev show : Uuid → String
show u = if u == 1 then "1" else "2"

evaluate_decides_example :
    let applies = is_applicable show caller "account:read" in
    (r : AuthorizationResult) × (evaluate show (ok (masking ∷ denying ∷ [])) caller "account:read"
      ≡ ok r)
    × (r.allowed ≡ not (any (λ p. applies p && denies p) (masking ∷ denying ∷ [])))
    × (r.field_masks ≡ masks_of (filter applies (masking ∷ denying ∷ [])))
evaluate_decides_example = evaluate_decides show (masking ∷ denying ∷ []) caller "account:read"

caller_is_masked :
    evaluate show (ok (masking ∷ denying ∷ [])) caller "account:read"
    ≡ ok (record {
      allowed = true;
      reason = abac_allowed;
      field_masks = record { field = "balance"; mask_value = "***"; reason = "no balances" } ∷ [];
    })
unfolding evaluate is_applicable matches_permission matches_conditions condition_holds condition
    actual_value compare_values names_permission collect conclude
caller_is_masked = refl
