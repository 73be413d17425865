-- ===== src/Middleware/Admin.antt =====
-- The guard of the admin API (internal/api/middleware/admin.go).
use auth.Base.{
  Bool, List, Option, String, [], any, codes, false, filter, if◌then◌else◌, leb, length, ltb, map,
  none, not, some, str_eq, true, ℕ, ◌&&◌, ◌++◌, ◌+◌, ◌==◌, ◌∷◌,
}
use auth.Text.{to_lower}

-- Per key the times of the requests in its window, newest last; times and the window share a unit. The
-- mutex makes a call atomic.
pub record AdminRateLimiter : Type 0 where
  pub tokens : String → List ℕ
  pub burst : ℕ
  pub window : ℕ

-- `t.After(now.Add(-window))`
unfoldable pub is_recent : ℕ → ℕ → ℕ → Bool
is_recent window now t = ltb now (t + window)

unfoldable pub put : String → List ℕ → (String → List ℕ) → String → List ℕ
put key ts tokens k = if str_eq k key then ts else tokens k

unfoldable pub allow : ℕ → String → AdminRateLimiter → Bool × AdminRateLimiter
unfolding is_recent put
allow now key r =
    let valid = filter (is_recent r.window now) (r.tokens key) in
    if leb r.burst (length valid)
    then (false, record r { tokens = put key valid r.tokens })
    else (true, record r { tokens = put key (valid ++ now ∷ []) r.tokens })

pub record AdminAuthConfig : Type 0 where
  pub allowed_roles : List String
  pub require_org_match : Bool

pub record TokenClaims : Type 0 where
  pub org_id : String
  pub roles : List String

-- The request as the guard reads it: the length of its Authorization header in bytes, the claims that
-- an earlier guard has stored, if they have the methods asked for, and the `org_id` of its query.
pub record Request : Type 0 where
  pub client_ip : String
  pub authorization_bytes : ℕ
  pub claims : Option TokenClaims
  pub org_id : String

pub data Verdict : Type 0 where
  next too_many_requests invalid_token permission_denied org_binding_required org_mismatch : Verdict

abbrev pub same_text : List ℕ → List ℕ → Bool
same_text [] [] = true
same_text [] (d ∷ t) = false
same_text (c ∷ s) [] = false
same_text (c ∷ s) (d ∷ t) = c == d && same_text s t

-- `strings.ToLower(role) == name`
unfoldable pub lower_is : String → String → Bool
unfolding to_lower
lower_is name role = same_text (map to_lower (codes role)) (codes name)

unfoldable pub has_allowed_role : AdminAuthConfig → TokenClaims → Bool
unfolding lower_is
has_allowed_role cfg c = any (λ role. any (λ name. lower_is name role) cfg.allowed_roles) c.roles

unfoldable pub is_super_admin : TokenClaims → Bool
unfolding lower_is
is_super_admin c = any (lower_is "super_admin") c.roles

unfoldable pub check_org : AdminAuthConfig → String → TokenClaims → Verdict
unfolding is_super_admin
check_org cfg org_id c =
    if cfg.require_org_match
    then (if str_eq c.org_id ""
        then (if is_super_admin c then next else org_binding_required)
        else if not (str_eq org_id "") && not (str_eq org_id c.org_id)
        then org_mismatch
        else next)
    else next

unfoldable pub check_claims : AdminAuthConfig → String → Option TokenClaims → Verdict
unfolding check_org has_allowed_role
check_claims cfg org_id none = invalid_token
check_claims cfg org_id (some c) =
    if has_allowed_role cfg c then check_org cfg org_id c else permission_denied

unfoldable pub admin_auth :
    AdminAuthConfig → ℕ → Request → AdminRateLimiter → Verdict × AdminRateLimiter
unfolding allow check_claims
admin_auth cfg now q r =
    let (allowed, r') = allow now q.client_ip r in
    (
      if allowed
          then (if ltb q.authorization_bytes 8
              then invalid_token
              else check_claims cfg q.org_id q.claims)
          else too_many_requests,
      r',
    )
