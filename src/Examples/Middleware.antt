-- ===== src/Examples/Middleware.antt =====
-- The guards at concrete inputs.
use auth.Base.{[], arith, filter, length, negsuc, pos, refl, some, true, ◌∷◌, ◌≡◌, ◌≢◌, ◌≤◌, ◌⊎◌}
use auth.Middleware.Admin.{
  is_recent, AdminRateLimiter, AdminAuthConfig, Request, TokenClaims, allow, has_allowed_role,
  is_super_admin, admin_auth,
}
use auth.Middleware.AdminLaws.{admin_auth-confines}
use auth.Middleware.AdminRate.{granted, granted-burst}
use auth.Middleware.BruteForce.{Counters, is_locked, record_login_result}
use auth.Middleware.BruteForceLaws.{is_locked-fail_times, fail_times}

abbrev limiter : AdminRateLimiter
limiter = record { tokens = λ k. 1 ∷ []; burst = 2; window = 10 }

abbrev config : AdminAuthConfig
config = record { allowed_roles = "admin" ∷ "super_admin" ∷ []; require_org_match = true }

abbrev claims : TokenClaims
claims = record { org_id = "o1"; roles = "viewer" ∷ "Admin" ∷ [] }

abbrev request : Request
request = record {
  client_ip = "10.0.0.1";
  authorization_bytes = 40;
  claims = some claims;
  org_id = "o1";
}

admin_auth-confines_example :
    (c : TokenClaims) × (request.claims ≡ some c)
    × (has_allowed_role config c ≡ true)
    × (((c.org_id ≡ "") × (is_super_admin c ≡ true))
        ⊎ ((c.org_id ≢ "") × ((request.org_id ≡ "") ⊎ (request.org_id ≡ c.org_id))))
unfolding admin_auth
admin_auth-confines_example = admin_auth-confines config 5 request limiter refl refl

abbrev idle : AdminRateLimiter
idle = record { tokens = λ k. []; burst = 2; window = 10 }

-- The third of five calls is refused, and so is the fourth.
granted_three : granted "10.0.0.1" idle (14 ∷ 6 ∷ 5 ∷ 4 ∷ 3 ∷ []) ≡ 3 ∷ 4 ∷ 14 ∷ []
unfolding allow
granted_three = refl

granted-burst_example :
    length (filter (is_recent 10 14) (granted "10.0.0.1" idle (14 ∷ 6 ∷ 5 ∷ 4 ∷ 3 ∷ []))) ≤ 2
granted-burst_example =
    granted-burst "10.0.0.1" idle (14 ∷ 6 ∷ 5 ∷ 4 ∷ 3 ∷ []) 14 (λ k. refl)
      (omega arith, (omega arith, (omega arith, (omega arith, (omega arith, tt)))))

abbrev counters : Counters
counters = record { count = λ k. some 3; ttl = λ k. negsuc 1 }

is_locked-fail_times_example :
    is_locked "ann" "10.0.0.1"
      (fail_times 12 "ann" "10.0.0.1" (record_login_result "ann" "10.0.0.1" true counters))
    ≡ (true, pos 3600)
is_locked-fail_times_example = is_locked-fail_times 12 "ann" "10.0.0.1" counters refl
