-- ===== src/Authz/Abac/Deny.antt =====
-- Which policies decide an access: a denial overrides (internal/service/authz/abac.go).
use mathlib.Core.List.{append-nil, append_assoc}
use auth.Base.{
  Bool, List, String, Uuid, [], any, ap, arith, false, filter, not, refl, str_eq, sym, true, ◌&&◌,
  ◌++◌, ◌||◌, ◌∙◌, ◌∷◌, ◌≡◌,
}
use auth.Authz.Domain.{AuthContext, FieldMask, ok}
use auth.Authz.Decision.{AuthorizationResult}
use auth.Authz.Abac.{Policy, collect, conclude, effect_deny, evaluate, is_applicable, mask_fields}

abbrev pub denies : Policy → Bool
denies p = str_eq p.effect effect_deny

collect-denied :
    (b : Bool) (masks : List FieldMask) (ps : List Policy)
    → (collect b masks ps).0 ≡ (b || any denies ps)
unfolding collect
collect-denied b masks [] = ground arith
collect-denied b masks (p ∷ ps) =
    ground (arith, collect-denied (b || denies p) (masks ++ mask_fields p.description p.fields) ps)

conclude-allowed : (r : Bool × List FieldMask) → (conclude r).allowed ≡ not r.0
unfolding conclude
conclude-allowed (true, masks) = refl
conclude-allowed (false, masks) = refl

any-filter :
    (p q : Policy → Bool) (ps : List Policy) → any p (filter q ps) ≡ any (λ x. q x && p x) ps
any-filter p q [] = refl
any-filter p q (x ∷ ps) = ground (arith, any-filter p q ps)

unfoldable pub masks_of : List Policy → List FieldMask
masks_of [] = []
masks_of (p ∷ ps) = mask_fields p.description p.fields ++ masks_of ps

collect-masks :
    (b : Bool) (masks : List FieldMask) (ps : List Policy)
    → (collect b masks ps).1 ≡ masks ++ masks_of ps
unfolding collect masks_of
collect-masks b masks [] = sym (append-nil masks)
collect-masks b masks (p ∷ ps) =
    collect-masks (b || denies p) (masks ++ mask_fields p.description p.fields) ps
    ∙ append_assoc masks (mask_fields p.description p.fields) (masks_of ps)

conclude-masks : (r : Bool × List FieldMask) → (conclude r).field_masks ≡ r.1
unfolding conclude
conclude-masks (true, masks) = refl
conclude-masks (false, masks) = refl

-- With the policies listed the evaluator decides: it allows an access exactly when no policy that applies to
-- it denies, and it masks the fields of all the policies that apply, of the denying ones too.
pub evaluate_decides :
    (uuid_string : Uuid → String) (ps : List Policy) (ctx : AuthContext) (permission : String)
    → let applies = is_applicable uuid_string ctx permission in
      (r : AuthorizationResult) × (evaluate uuid_string (ok ps) ctx permission ≡ ok r)
      × (r.allowed ≡ not (any (λ p. applies p && denies p) ps))
      × (r.field_masks ≡ masks_of (filter applies ps))
unfolding evaluate
evaluate_decides uuid_string ps ctx permission =
    let applies = is_applicable uuid_string ctx permission in
    let found = collect false [] (filter applies ps) in
    (
      conclude found,
      refl,
      conclude-allowed found
          ∙ ap not (collect-denied false [] (filter applies ps) ∙ any-filter denies applies ps),
      conclude-masks found ∙ collect-masks false [] (filter applies ps),
    )
