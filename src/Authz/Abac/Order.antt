-- ===== src/Authz/Abac/Order.antt =====
-- The order in which Go iterates over the conditions of a policy, or in which the store lists the
-- policies, does not decide an access (internal/service/authz/abac.go).
use mathlib.Core.List.{Perm, Permᴰ}
use mathlib.Core.Logic.{∥∥₁_elim}
use auth.Base.{Bool, List, String, Uuid, all, any, ap, arith, not, refl, sym, ◌&&◌, ◌∙◌, ◌≡◌}
use auth.Authz.Domain.{AuthContext, ok}
use auth.Authz.Decision.{AuthorizationResult}
use auth.Authz.Abac.{Policy, Value, condition_holds, evaluate, is_applicable, matches_conditions}
use auth.Authz.Abac.Deny.{denies, evaluate_decides}

Bool-set : IsSet Bool
Bool-set = hlevel

module _ {ℓ} {A : Type ℓ} (p : A → Bool) where
  all-Permᴰ : {xs ys : List A} → Permᴰ xs ys → all p xs ≡ all p ys
  all-Permᴰ Permᴰ.nil = refl
  all-Permᴰ (Permᴰ.cons e h) = rw (e, all-Permᴰ h)
  all-Permᴰ (Permᴰ.swap {a = a} {b = b} e f) = rw (← e, ← f) (ground arith)
  all-Permᴰ (Permᴰ.trans h k) = all-Permᴰ h ∙ all-Permᴰ k

  any-Permᴰ : {xs ys : List A} → Permᴰ xs ys → any p xs ≡ any p ys
  any-Permᴰ Permᴰ.nil = refl
  any-Permᴰ (Permᴰ.cons e h) = rw (e, any-Permᴰ h)
  any-Permᴰ (Permᴰ.swap {a = a} {b = b} e f) = rw (← e, ← f) (ground arith)
  any-Permᴰ (Permᴰ.trans h k) = any-Permᴰ h ∙ any-Permᴰ k

-- Whether the conditions hold does not depend on the order in which the map's pairs are visited.
pub matches_conditions-Perm :
    (uuid_string : Uuid → String) (cs ds : List (String × Value)) (ctx : AuthContext)
    → Perm cs ds
    → matches_conditions uuid_string cs ctx ≡ matches_conditions uuid_string ds ctx
unfolding matches_conditions
matches_conditions-Perm uuid_string cs ds ctx h =
    ∥∥₁_elim h (Bool-set _ _) (all-Permᴰ (condition_holds uuid_string ctx))

allowed_by :
    (uuid_string : Uuid → String) (ps : List Policy) (ctx : AuthContext) (permission : String)
    {r : AuthorizationResult}
    → evaluate uuid_string (ok ps) ctx permission ≡ ok r
    → r.allowed ≡ not (any (λ p. is_applicable uuid_string ctx permission p && denies p) ps)
allowed_by uuid_string ps ctx permission {r} e =
    let (r', e', a, _) = evaluate_decides uuid_string ps ctx permission in
    let same : r ≡ r' = cc in rw same a

-- Nor does the decision depend on the order of the policies.
evaluate-Perm :
    (uuid_string : Uuid → String) (ps qs : List Policy) (ctx : AuthContext) (permission : String)
    {r s : AuthorizationResult}
    → Perm ps qs
    → evaluate uuid_string (ok ps) ctx permission ≡ ok r
    → evaluate uuid_string (ok qs) ctx permission ≡ ok s
    → r.allowed ≡ s.allowed
evaluate-Perm uuid_string ps qs ctx permission h er es =
    let applies = is_applicable uuid_string ctx permission in
    allowed_by uuid_string ps ctx permission er
    ∙ ap not (∥∥₁_elim h (Bool-set _ _) (any-Permᴰ (λ p. applies p && denies p)))
    ∙ sym (allowed_by uuid_string qs ctx permission es)
