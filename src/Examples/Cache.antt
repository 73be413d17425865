-- ===== src/Examples/Cache.antt =====
-- The parameter cache with two entries, one of them expired at second 40.
use auth.Base.{[], arith, eq_iff, ℕ, ◌∷◌, ◌≡◌}
use auth.OpaCache.{Cache, cleanup, get}
use auth.OpaCache.Expiry.{get-cleanup}

abbrev cache : Cache ℕ
cache = record {
  entries =
      ("opa:1:operational_hours:global", record { value = 7; expires_at = 10 })
      ∷ ("opa:2:operational_hours:global", record { value = 8; expires_at = 90 })
      ∷ [];
  ttl = 60;
}

get-cleanup_example :
    get 50 "opa:2:operational_hours:global" (cleanup 40 cache)
    ≡ get 50 "opa:2:operational_hours:global" cache
get-cleanup_example = get-cleanup 40 50 "opa:2:operational_hours:global" cache (omega arith) (
  (ground (arith, eq_iff "opa:1:operational_hours:global" "opa:2:operational_hours:global"), tt),
  (tt, tt),
)
