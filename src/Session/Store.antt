-- ===== src/Session/Store.antt =====
-- The session store (internal/service/session/store.go). An operation reads the clock once, as `now` in
-- seconds; `ttl` is the store's time to live.
use auth.Base.{
  Bool, List, Option, String, [], difference, false, filter, if◌then◌else◌, map, negsuc, none, pos,
  some, str_eq, true, ℕ, ℤ, ◌+◌, ◌==◌, ◌∷◌, as_option, fail, ok, return, throw, ◌>>=◌,
}
use auth.Redis.{Redis, Reply, down, hit, nil}
use auth.Session.Data.{
  Key, M, Outcome, SessionData, Value, blacklist, blacklist_session, one, redis_del, redis_get,
  redis_scan, redis_set, refresh, refresh_family, refresh_json, session, session_json,
  session_not_found, unmarshal, written,
}

unfoldable pub decode_session : Reply Value → Outcome (Option SessionData)
decode_session (hit (session_json d)) = ok (some d)
decode_session (hit (refresh_json t)) = fail unmarshal
decode_session (hit one) = fail unmarshal
decode_session nil = ok none
decode_session down = fail redis_get

-- A time to live that is not positive is replaced by the default.
unfoldable pub positive_or : ℕ → ℤ → ℤ
positive_or default (pos n) = if n == 0 then pos default else pos n
positive_or default (negsuc n) = pos default

unfoldable pub is_session_key : Key → Bool
is_session_key (session id) = true
is_session_key (refresh h) = false
is_session_key (refresh_family f) = false
is_session_key (blacklist j) = false
is_session_key (blacklist_session id) = false

-- The record that `Create` writes.
unfoldable pub new_session : ℕ → ℕ → String → SessionData → SessionData
new_session ttl now new_id given = record given {
  id = if str_eq given.id "" then new_id else given.id;
  created_at = now;
  last_used_at = now;
  expires_at = now + ttl;
}

module _ (r : Redis Key Value) where
  unfoldable pub create : ℕ → ℕ → String → SessionData → M r.State (Unit {0})
  unfolding new_session
  create ttl now new_id given s =
      let d = new_session ttl now new_id given in
      written redis_set (r.set (session d.id) (session_json d) (pos ttl) s)

  unfoldable pub get : String → M r.State (Option SessionData)
  unfolding decode_session
  get id s = (decode_session (r.get (session id) s), s)

  unfoldable pub update_found :
      ℕ
      → ℕ
      → String
      → (SessionData → Outcome SessionData)
      → Option SessionData
      → M r.State (Unit {0})
  unfolding positive_or
  update_found ttl now id f none s = throw session_not_found s
  update_found ttl now id f (some d) s = elim (f d) [
    | ok d' ↦ written redis_set (
        r.set (session id) (session_json (record d' { last_used_at = now }))
          (positive_or ttl (difference d'.expires_at now)) s)
    | fail e ↦ (fail e, s)
  ]

  unfoldable pub update :
      ℕ → ℕ → String → (SessionData → Outcome SessionData) → M r.State (Unit {0})
  unfolding get update_found
  update ttl now id f = get id >>= update_found ttl now id f

  unfoldable pub delete : String → M r.State (Unit {0})
  delete id s = written redis_del (r.del (session id) s)

  unfoldable pub update_last_used : ℕ → ℕ → String → M r.State (Unit {0})
  unfolding update
  update_last_used ttl now id = update ttl now id (λ d. ok (record d { last_used_at = now }))

  unfoldable pub check_ip_binding : String → String → M r.State Bool
  unfolding get
  check_ip_binding id current_ip = do
    found ← get id
    return (elim found [ none ↦ false | some d ↦ str_eq d.ip_address current_ip ])

  unfoldable pub revoke_ip_mismatch : String → String → String → M r.State (Unit {0})
  unfolding delete
  revoke_ip_mismatch id old_ip new_ip = delete id

  extend_found : ℕ → ℕ → String → Option SessionData → M r.State (Unit {0})
  extend_found now extension id none s = throw session_not_found s
  extend_found now extension id (some d) s = written redis_set (
      r.set (session id) (session_json (record d { expires_at = now + extension })) (pos extension)
        s)

  unfoldable pub extend_ttl : ℕ → String → ℕ → M r.State (Unit {0})
  unfolding get extend_found
  extend_ttl now id extension = get id >>= extend_found now extension id

  -- The session under a key that the scan yields, if it can be read.
  unfoldable pub session_at : Key → r.State → Option SessionData
  unfolding decode_session
  session_at k s = as_option (decode_session (r.get k s))

  unfoldable pub keep_session : Option SessionData → List SessionData → List SessionData
  keep_session none rest = rest
  keep_session (some d) rest = d ∷ rest

  -- The sessions under the keys, in their order.
  unfoldable pub sessions_at : List Key → r.State → List SessionData
  unfolding session_at keep_session
  sessions_at [] s = []
  sessions_at (k ∷ ks) s = keep_session (session_at k s) (sessions_at ks s)

  unfoldable pub list_all : M r.State (List SessionData)
  unfolding sessions_at is_session_key
  list_all s =
      let (keys, complete) = r.scan is_session_key s in
      (if complete then ok (sessions_at keys s) else fail redis_scan, s)

  unfoldable pub get_ids_by_user : String → M r.State (List String)
  unfolding sessions_at is_session_key
  get_ids_by_user user_id s =
      let (keys, complete) = r.scan is_session_key s in
      (
        if complete
            then ok (map (λ d. d.id) (filter (λ d. str_eq d.user_id user_id) (sessions_at keys s)))
            else fail redis_scan,
        s,
      )

  -- The body of the loop of `DeleteByUser` and `DeleteByOrg`.
  unfoldable pub delete_read : (SessionData → Bool) → Key → Option SessionData → r.State → r.State
  delete_read p k none s = s
  delete_read p k (some d) s = if p d then (r.del k s).0 else s

  unfoldable pub delete_if : (SessionData → Bool) → Key → r.State → r.State
  unfolding session_at delete_read
  delete_if p k s = delete_read p k (session_at k s) s

  unfoldable pub delete_each : (SessionData → Bool) → List Key → r.State → r.State
  unfolding delete_if
  delete_each p [] s = s
  delete_each p (k ∷ ks) s = delete_each p ks (delete_if p k s)

  unfoldable pub delete_matching : (SessionData → Bool) → M r.State (Unit {0})
  unfolding delete_each is_session_key
  delete_matching p s =
      let (keys, complete) = r.scan is_session_key s in
      written redis_scan (delete_each p keys s, complete)

  unfoldable pub delete_by_user : String → M r.State (Unit {0})
  unfolding delete_matching
  delete_by_user user_id = delete_matching (λ d. str_eq d.user_id user_id)

  unfoldable pub delete_by_org : String → M r.State (Unit {0})
  unfolding delete_matching
  delete_by_org org_id = delete_matching (λ d. str_eq d.org_id org_id)
