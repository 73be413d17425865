-- ===== src/Middleware/AdminLaws.antt =====
-- What the admin guard lets through, and how often (internal/api/middleware/admin.go).
use auth.Base.{
  Option-cases, String, [], arith, eq_iff, filter, inl, inr, length, length-append,
  length-filter-le, some, true, ℕ, ◌∷◌, ◌≡◌, ◌≢◌, ◌≤◌, ◌⊎◌,
}
use auth.Middleware.Admin.{
  AdminRateLimiter, AdminAuthConfig, Request, TokenClaims, next, is_recent, put, allow,
  has_allowed_role, is_super_admin, check_org, check_claims, admin_auth,
}

-- With the organisation required, a request passes the admin guard only with an allowed role and
-- within its organisation: its token is bound to one, which is the one asked for if one is asked for;
-- or its token is bound to none and names super_admin.
pub admin_auth-confines :
    (cfg : AdminAuthConfig) (now : ℕ) (q : Request) (r : AdminRateLimiter)
    → cfg.require_org_match ≡ true
    → (admin_auth cfg now q r).0 ≡ next
    → (c : TokenClaims) × (q.claims ≡ some c)
      × (has_allowed_role cfg c ≡ true)
      × (((c.org_id ≡ "") × (is_super_admin c ≡ true))
          ⊎ ((c.org_id ≢ "") × ((q.org_id ≡ "") ⊎ (q.org_id ≡ c.org_id))))
unfolding admin_auth check_claims check_org
admin_auth-confines cfg now q r required passed = elim (Option-cases q.claims) [
  | inl absent ↦ absurd (ground arith)
  | inr (c, present) ↦ (
    c,
    present,
    ground arith,
    ground (arith, eq_iff c.org_id "", eq_iff q.org_id "", eq_iff q.org_id c.org_id),
  )
]

-- Every key's list is within the burst.
abbrev pub IsWithin : AdminRateLimiter → Type 0
IsWithin r = (key : String) → length (r.tokens key) ≤ r.burst

-- A call keeps every key's list within the burst.
pub allow-IsWithin :
    (now : ℕ) (key : String) (r : AdminRateLimiter) → IsWithin r → IsWithin (allow now key r).1
unfolding allow put
allow-IsWithin now key r within k = ground (
  arith,
  within k,
  length-filter-le (is_recent r.window now) (r.tokens key),
  within key,
  length-append (filter (is_recent r.window now) (r.tokens key)) (now ∷ []),
)
