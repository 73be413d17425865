-- ===== src/Session/Revocation.antt =====
-- Revoked sessions of internal/service/session and the access tokens that name them.
use auth.Base.{
  Any, Bool, Bool-cases, List, Option, String, [], ap, arith, eq_iff, fail, filter, inl, inr, map,
  none, ok, refl, some, str_eq, subst, sym, true, ℕ, ◌∙◌, ◌∷◌, ◌≡◌,
}
use auth.Redis.{Available, Redis, hit, nil}
use auth.Session.Data.{
  Claims, Env, Key, SessionData, Value, blacklist_session, one, session, session_json,
  session_revoked,
}
use auth.Session.Store.{
  decode_session, keep_session, session_at, sessions_at, delete_if, delete_each, is_session_key,
}
use auth.Session.Store as Store
use auth.Session.Refresh.{is_session_revoked, eight_hours}
use auth.Session.Refresh as Refresh
use auth.Session.Access.{verify_access_token, check_revoked, verify_claims}
use auth.Session.Service.{revoke_session, revoke_each, revoke_all_user_sessions}

module _ {r : Redis Key Value} (a : Available r) (e : Env) (ttl : ℕ) where
  -- The session has no record, and it is blacklisted.
  abbrev pub IsEnded : String → r.State → Type 0
  IsEnded id s = (r.get (session id) s ≡ nil) × (r.get (blacklist_session id) s ≡ hit one)

  revoke_session_self : (id : String) (s : r.State) → IsEnded id (revoke_session r e ttl id s).1
  unfolding revoke_session Store.delete Refresh.add_session eight_hours
  revoke_session_self id s = rw (a.del_ok (session id) s) (
    a.get-set_ne _ _ _ _ _ (ground arith) ∙ a.get-del_self _ s,
    a.get-set_self _ _ 28800 _ (omega arith),
  )

  revoke_session-other :
      (id other : String) (s : r.State)
      → IsEnded id s
      → IsEnded id (revoke_session r e ttl other s).1
  unfolding revoke_session Store.delete Refresh.add_session eight_hours
  revoke_session-other id other s (gone, listed) = elim (Bool-cases (str_eq other id)) [
    | inl same ↦
        subst (λ x. IsEnded id (revoke_session r e ttl x s).1) (sym ((eq_iff other id).0 same))
          (revoke_session_self id s)
    | inr differ ↦ rw (a.del_ok (session other) s) (
      a.get-set_ne _ _ _ _ _ (ground arith)
          ∙ a.get-del_ne _ _ s (ground (arith, eq_iff other id))
          ∙ gone,
      a.get-set_ne _ _ _ _ _ (ground (arith, eq_iff other id))
          ∙ a.get-del_ne _ _ s (ground arith)
          ∙ listed,
    )
  ]

  pub verify_access_token-IsListed :
      (token id : String) {claims : Claims} (s : r.State)
      → e.verify_access_token token ≡ some claims
      → claims.session_id ≡ id
      → r.get (blacklist_session id) s ≡ hit one
      → (verify_access_token r e token s).0 ≡ fail session_revoked
  unfolding verify_access_token is_session_revoked check_revoked verify_claims
  verify_access_token-IsListed token id {claims} s valid names listed =
      rw valid (rw names (rw (a.exists-get (blacklist_session id) s) (rw listed refl)))

  -- A session that is revoked has no record, and no access token that names it is accepted.
  verify-revoke_session :
      (id token : String) {claims : Claims} (s : r.State)
      → e.verify_access_token token ≡ some claims
      → claims.session_id ≡ id
      → let (answer, s') = revoke_session r e ttl id s in
        (answer ≡ ok tt)
        × (r.get (session id) s' ≡ nil)
        × ((verify_access_token r e token s').0 ≡ fail session_revoked)
  unfolding revoke_session Store.delete
  verify-revoke_session id token {claims} s valid names = (
    rw (a.del_ok (session id) s) refl,
    (revoke_session_self id s).0,
    verify_access_token-IsListed token id _ valid names (revoke_session_self id s).1,
  )

  revoke_each-IsEnded :
      (ids : List String) (id : String) (s : r.State)
      → IsEnded id s
      → IsEnded id (revoke_each r e ttl ids s)
  unfolding revoke_each
  revoke_each-IsEnded [] id s ended = ended
  revoke_each-IsEnded (x ∷ ids) id s ended =
      revoke_each-IsEnded ids id _ (revoke_session-other id x s ended)

  revoke_each-listed :
      (ids : List String) (id : String) (s : r.State)
      → Any (λ x. x ≡ id) ids
      → IsEnded id (revoke_each r e ttl ids s)
  unfolding revoke_each
  revoke_each-listed [] id s none_listed = elim none_listed [ ]
  revoke_each-listed (x ∷ ids) id s (inl same) =
      revoke_each-IsEnded ids id _ (
        subst (λ y. IsEnded id (revoke_session r e ttl y s).1) (sym same)
          (revoke_session_self id s))
  revoke_each-listed (x ∷ ids) id s (inr later) = revoke_each-listed ids id _ later

  keep_session-Any :
      (p : SessionData → Bool) (o : Option SessionData) (ds : List SessionData) (id : String)
      → Any (λ x. x ≡ id) (map (λ d. d.id) (filter p ds))
      → Any (λ x. x ≡ id) (map (λ d. d.id) (filter p (keep_session r o ds)))
  unfolding keep_session
  keep_session-Any p none ds id listed = listed
  keep_session-Any p (some d) ds id listed = elim (Bool-cases (p d)) [
    | inl kept ↦ rw kept (inr listed)
    | inr passed ↦ rw passed listed
  ]

  sessions_at-Any :
      (p : SessionData → Bool) (keys : List Key) (k : Key) (d : SessionData) (s : r.State)
      → Any (λ j. j ≡ k) keys
      → session_at r k s ≡ some d
      → p d ≡ true
      → Any (λ x. x ≡ d.id) (map (λ d. d.id) (filter p (sessions_at r keys s)))
  unfolding sessions_at keep_session
  sessions_at-Any p [] k d s none_listed found holds = elim none_listed [ ]
  sessions_at-Any p (j ∷ keys) k d s (inl same) found holds =
      let here : session_at r j s ≡ some d = ap (λ x. session_at r x s) same ∙ found in
      rw here (rw holds (inl refl))
  sessions_at-Any p (j ∷ keys) k d s (inr later) found holds =
      keep_session-Any p (session_at r j s) _ d.id (sessions_at-Any p keys k d s later found holds)

  pub revoke_all_user_sessions-IsEnded :
      (user : String) (d : SessionData) (s : r.State)
      → r.get (session d.id) s ≡ hit (session_json d)
      → d.user_id ≡ user
      → IsEnded d.id (revoke_all_user_sessions r e ttl user s).1
  unfolding revoke_all_user_sessions Store.get_ids_by_user session_at decode_session is_session_key
  revoke_all_user_sessions-IsEnded user d s stored owner =
      let found : session_at r (session d.id) s ≡ some d = rw stored refl in
      let own : str_eq d.user_id user ≡ true = (eq_iff d.user_id user).1 owner in
      let listed =
        sessions_at-Any (λ x. str_eq x.user_id user) _ (session d.id) d s
          (a.scan-Any is_session_key (session d.id) s refl (rw stored refl)) found own in
      rw (a.scan_ok is_session_key s) (revoke_each-listed _ d.id s listed)

  -- After all sessions of a user are revoked, every session of that user that Redis held under
  -- its own id is gone, and no access token that names it is accepted.
  pub verify-revoke_all_user_sessions :
      (user token : String) (d : SessionData) {claims : Claims} (s : r.State)
      → r.get (session d.id) s ≡ hit (session_json d)
      → d.user_id ≡ user
      → e.verify_access_token token ≡ some claims
      → claims.session_id ≡ d.id
      → let s' = (revoke_all_user_sessions r e ttl user s).1 in
        (r.get (session d.id) s' ≡ nil)
        × ((verify_access_token r e token s').0 ≡ fail session_revoked)
  verify-revoke_all_user_sessions user token d {claims} s stored owner valid names =
      let ended = revoke_all_user_sessions-IsEnded user d s stored owner in
      (ended.0, verify_access_token-IsListed token d.id _ valid names ended.1)
