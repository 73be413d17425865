-- ===== src/Session/Validation.antt =====
-- The binding of a session to its address (`ValidateSession` of internal/service/session/service.go).
use auth.Base.{
  Bool-cases, String, arith, difference, if◌then◌else◌, inl, inr, negsuc, pos, refl, some, str_eq,
  ℕ, ℤ, ◌<◌, ◌==◌, ◌≡◌, fail, ok,
}
use auth.Redis.{Available, Redis, hit, nil}
use auth.Session.Data.{Env, Key, SessionData, Value, ip_mismatch, session, session_json}
use auth.Session.Store.{decode_session, new_session, positive_or, update_found}
use auth.Session.Store as Store
use auth.Session.Service.{validate_session, validate_found}

module _ {r : Redis Key Value} (a : Available r) (e : Env) (ttl : ℕ) where
  get-positive :
      (k : Key) (v : Value) (z : ℤ) (s : r.State)
      → 0 < ttl
      → r.get k (r.set k v (positive_or ttl z) s).0 ≡ hit v
  unfolding positive_or
  get-positive k v (negsuc n) s lives = a.get-set_self k v ttl s lives
  get-positive k v (pos n) s lives = elim (Bool-cases (n == 0)) [
    | inl e ↦ rw e (a.get-set_self k v ttl s lives)
    | inr e ↦ rw e (a.get-set_self k v n s (ground arith))
  ]

  get-update_last_used :
      (now : ℕ) (id : String) (d : SessionData) (s : r.State)
      → 0 < ttl
      → r.get (session id) s ≡ hit (session_json d)
      → r.get (session id) (Store.update_last_used r ttl now id s).1
        ≡ hit (session_json (record d { last_used_at = now }))
  unfolding Store.update_last_used Store.update Store.get update_found decode_session
  get-update_last_used now id d s lives stored =
      rw stored (get-positive (session id) _ (difference d.expires_at now) s lives)

  -- With a store whose time to live is positive, a stored session is handed out to the address
  -- that it was created for, and its last use noted; a request from another address is refused,
  -- and ends the session.
  validate_session-binds :
      (now : ℕ) (id ip : String) (d : SessionData) (s : r.State)
      → 0 < ttl
      → r.get (session id) s ≡ hit (session_json d)
      → let (answer, s') = validate_session r e ttl now id ip s in
        let same = str_eq d.ip_address ip in
        (answer ≡ (if same then ok (some d) else fail ip_mismatch))
        × (r.get (session id) s'
            ≡ (if same then hit (session_json (record d { last_used_at = now })) else nil))
  unfolding validate_session Store.get decode_session validate_found Store.delete
  validate_session-binds now id ip d s lives stored = elim (Bool-cases (str_eq d.ip_address ip)) [
    | inl same ↦ rw stored (rw same (refl, get-update_last_used now id d s lives stored))
    | inr other ↦ rw stored (rw other (refl, a.get-del_self (session id) s))
  ]
