-- ===== src/Session/Refresh.antt =====
-- The stores of refresh tokens and of the blacklist (internal/service/session/refresh.go).
use auth.Base.{
  Bool, List, Option, String, [], difference, false, if◌then◌else◌, negsuc, none, not, pos, some,
  true, ℕ, ℤ, ◌&&◌, ◌==◌, ◌∷◌, as_option, fail, ok, return, throw, ◌>>=◌,
}
use auth.Redis.{Redis, Reply, down, hit, nil}
use auth.Session.Data.{
  Key, M, Outcome, RefreshTokenData, Value, blacklist, blacklist_session, one, redis_exec,
  redis_exists, redis_get, redis_set, refresh, refresh_family, refresh_json, session_json,
  smembers_failed, token_not_found, unmarshal, written,
}
use auth.Session.Store.{positive_or}

unfoldable pub decode_token : Reply Value → Outcome (Option RefreshTokenData)
decode_token (hit (refresh_json t)) = ok (some t)
decode_token (hit (session_json d)) = fail unmarshal
decode_token (hit one) = fail unmarshal
decode_token nil = ok none
decode_token down = fail redis_get

unfoldable pub is_some : {A : Type 0} → Option A → Bool
is_some none = false
is_some (some x) = true

unfoldable pub is_positive : ℤ → Bool
is_positive (pos n) = not (n == 0)
is_positive (negsuc n) = false

unfoldable pub eight_hours : ℕ
eight_hours = 28800

module _ (r : Redis Key Value) where
  -- The pipeline sends all three commands, and reports an error if one of them fails.
  unfoldable pub create : ℕ → RefreshTokenData → M r.State (Unit {0})
  unfolding positive_or eight_hours
  create now given s =
      let t = positive_or eight_hours (difference given.expires_at now) in
      let (s1, a) = r.set (refresh given.token_hash) (refresh_json given) t s in
      let (s2, b) = r.sadd (refresh_family given.family_id) given.token_hash s1 in
      let (s3, c) = r.expire (refresh_family given.family_id) t s2 in
      written redis_exec (s3, a && b && c)

  unfoldable pub get_by_hash : String → M r.State (Option RefreshTokenData)
  unfolding decode_token
  get_by_hash hash s = (decode_token (r.get (refresh hash) s), s)

  mark_found : ℕ → String → Option RefreshTokenData → M r.State (Unit {0})
  mark_found now hash none s = throw token_not_found s
  mark_found now hash (some t) s = written redis_set (
      r.set (refresh hash) (refresh_json (record t { used_at = some now }))
        (difference t.expires_at now) s)

  unfoldable pub mark_used : ℕ → String → M r.State (Unit {0})
  unfolding get_by_hash mark_found
  mark_used now hash = get_by_hash hash >>= mark_found now hash

  -- Unless the token has expired.
  unfoldable pub write_revoked : ℕ → String → RefreshTokenData → M r.State (Unit {0})
  unfolding is_positive
  write_revoked now hash t s =
      if is_positive (difference t.expires_at now)
      then written redis_set (
          r.set (refresh hash) (refresh_json (record t { revoked_at = some now }))
            (difference t.expires_at now) s)
      else (ok tt, s)

  revoke_found : ℕ → String → Option RefreshTokenData → M r.State (Unit {0})
  unfolding write_revoked
  revoke_found now hash none = return tt
  revoke_found now hash (some t) = write_revoked now hash t

  unfoldable pub revoke : ℕ → String → M r.State (Unit {0})
  unfolding get_by_hash revoke_found
  revoke now hash = get_by_hash hash >>= revoke_found now hash

  -- The body of the loop of `RevokeFamily`, which drops every error.
  unfoldable pub revoke_unless : ℕ → String → Option RefreshTokenData → r.State → r.State
  unfolding is_some write_revoked
  revoke_unless now hash none s = s
  revoke_unless now hash (some t) s =
      if is_some t.revoked_at then s else (write_revoked now hash t s).1

  unfoldable pub revoke_member : ℕ → String → r.State → r.State
  unfolding decode_token revoke_unless
  revoke_member now hash s =
      revoke_unless now hash (as_option (decode_token (r.get (refresh hash) s))) s

  unfoldable pub revoke_members : ℕ → List String → r.State → r.State
  unfolding revoke_member
  revoke_members now [] s = s
  revoke_members now (hash ∷ hashes) s = revoke_members now hashes (revoke_member now hash s)

  unfoldable pub revoke_listed : ℕ → Option (List String) → M r.State (Unit {0})
  unfolding revoke_members
  revoke_listed now none s = (fail smembers_failed, s)
  revoke_listed now (some hashes) s = (ok tt, revoke_members now hashes s)

  unfoldable pub revoke_family : ℕ → String → M r.State (Unit {0})
  unfolding revoke_listed
  revoke_family now family_id s = revoke_listed now (r.smembers (refresh_family family_id) s) s

  unfoldable pub is_reuse : String → M r.State Bool
  unfolding get_by_hash is_some
  is_reuse hash = do
    found ← get_by_hash hash
    return (elim found [ none ↦ false | some t ↦ is_some t.used_at ])

  tokens_at : List String → r.State → List RefreshTokenData
  unfolding decode_token
  tokens_at [] s = []
  tokens_at (hash ∷ hashes) s =
      let rest = tokens_at hashes s in
      elim (as_option (decode_token (r.get (refresh hash) s))) [ none ↦ rest | some t ↦ t ∷ rest ]

  unfoldable pub get_family_tokens : String → M r.State (List RefreshTokenData)
  unfolding tokens_at
  get_family_tokens family_id s = elim (r.smembers (refresh_family family_id) s) [
    | none ↦ (fail smembers_failed, s)
    | some hashes ↦ (ok (tokens_at hashes s), s)
  ]

  -- The blacklist of tokens.
  unfoldable pub add : String → ℤ → M r.State (Unit {0})
  unfolding is_positive
  add jti ttl s =
      if is_positive ttl then written redis_set (r.set (blacklist jti) one ttl s) else (ok tt, s)

  present : Option Bool → Outcome Bool
  present none = fail redis_exists
  present (some b) = ok b

  unfoldable pub contains : String → M r.State Bool
  unfolding present
  contains jti s = (present (r.exists (blacklist jti) s), s)

  -- The blacklist of sessions.
  unfoldable pub add_session : String → ℤ → M r.State (Unit {0})
  add_session id ttl s = written redis_set (r.set (blacklist_session id) one ttl s)

  unfoldable pub is_session_revoked : String → M r.State Bool
  unfolding present
  is_session_revoked id s = (present (r.exists (blacklist_session id) s), s)
