-- ===== src/Session/Organisation.antt =====
-- The revocation of an organisation's sessions in internal/service/session.
use auth.Base.{
  All, Any, Bool, Bool-cases, List, Option, String, [], ap, arith, eq_iff, false, inl, inr, none,
  refl, some, str_eq, subst, sym, true, ℕ, ◌∙◌, ◌∷◌, ◌≡◌, ◌≢◌,
}
use auth.Redis.{Available, Redis, hit, is_hit, nil}
use auth.Session.Data.{
  Claims, Env, Key, SessionData, Value, blacklist_session, session, session_json,
}
use auth.Session.Store.{
  decode_session, session_at, delete_read, delete_if, delete_each, delete_matching, is_session_key,
}
use auth.Session.Store as Store
use auth.Session.Refresh.{is_session_revoked}
use auth.Session.Access.{verify_access_token, verify_claims}
use auth.Session.Service.{revoke_all_org_sessions}

module _ {r : Redis Key Value} (a : Available r) (p : SessionData → Bool) where
  get-delete_read_ne :
      (j k : Key) (o : Option SessionData) (s : r.State)
      → j ≢ k
      → r.get j (delete_read r p k o s) ≡ r.get j s
  unfolding delete_read
  get-delete_read_ne j k none s other = refl
  get-delete_read_ne j k (some d) s other = elim (Bool-cases (p d)) [
    | inl e ↦ rw e (a.get-del_ne j k s other)
    | inr e ↦ rw e refl
  ]

  -- A loop over session keys leaves every other kind of key alone.
  pub get-delete_each_ne :
      (j : Key) (keys : List Key) (s : r.State)
      → is_session_key j ≡ false
      → All (λ k. is_session_key k ≡ true) keys
      → r.get j (delete_each r p keys s) ≡ r.get j s
  unfolding delete_each delete_if
  get-delete_each_ne j [] s kind h = refl
  get-delete_each_ne j (k ∷ keys) s kind (here, there) =
      get-delete_each_ne j keys _ kind there
      ∙ get-delete_read_ne j k _ s (λ same. ground (arith, ap is_session_key same))

  delete_if-gone :
      (id : String) (k : Key) (s : r.State)
      → is_session_key k ≡ true
      → r.get (session id) s ≡ nil
      → r.get (session id) (delete_if r p k s) ≡ nil
  unfolding delete_if session_at decode_session delete_read is_session_key
  delete_if-gone id (session x) s kind gone = elim (Bool-cases (str_eq x id)) [
    | inl same ↦ rw ((eq_iff x id).0 same) (rw gone gone)
    | inr other ↦
        get-delete_read_ne (session id) (session x) _ s (ground (arith, eq_iff x id)) ∙ gone
  ]
  delete_if-gone id k s kind gone = absurd (ground arith)

  delete_each-gone :
      (id : String) (keys : List Key) (s : r.State)
      → All (λ k. is_session_key k ≡ true) keys
      → r.get (session id) s ≡ nil
      → r.get (session id) (delete_each r p keys s) ≡ nil
  unfolding delete_each
  delete_each-gone id [] s h gone = gone
  delete_each-gone id (k ∷ keys) s (here, there) gone =
      delete_each-gone id keys _ there (delete_if-gone id k s here gone)

  delete_if_self :
      (id : String) (d : SessionData) (s : r.State)
      → r.get (session id) s ≡ hit (session_json d)
      → p d ≡ true
      → r.get (session id) (delete_if r p (session id) s) ≡ nil
  unfolding delete_if session_at decode_session delete_read
  delete_if_self id d s stored holds = rw stored (rw holds (a.get-del_self (session id) s))

  get-delete_if_ne :
      (id x : String) (s : r.State)
      → session id ≢ session x
      → r.get (session id) (delete_if r p (session x) s) ≡ r.get (session id) s
  unfolding delete_if
  get-delete_if_ne id x s other = get-delete_read_ne (session id) (session x) _ s other

  -- Every listed session that satisfies the predicate is deleted.
  pub delete_each_complete :
      (id : String) (d : SessionData) (keys : List Key) (s : r.State)
      → All (λ k. is_session_key k ≡ true) keys
      → Any (λ k. k ≡ session id) keys
      → r.get (session id) s ≡ hit (session_json d)
      → p d ≡ true
      → r.get (session id) (delete_each r p keys s) ≡ nil
  unfolding delete_each is_session_key
  delete_each_complete id d [] s h none_listed stored holds = elim none_listed [ ]
  delete_each_complete id d (k ∷ keys) s (here, there) (inl same) stored holds =
      delete_each-gone id keys _ there (
        subst (λ x. r.get (session id) (delete_if r p x s) ≡ nil) (sym same)
          (delete_if_self id d s stored holds))
  delete_each_complete id d (session x ∷ keys) s (here, there) (inr later) stored holds =
      elim (Bool-cases (str_eq x id)) [
        | inl same ↦ delete_each-gone id keys _ there (
            subst (λ y. r.get (session id) (delete_if r p (session y) s) ≡ nil)
              (sym ((eq_iff x id).0 same)) (delete_if_self id d s stored holds))
        | inr other ↦
            delete_each_complete id d keys _ there later
              (get-delete_if_ne id x s (ground (arith, eq_iff x id)) ∙ stored) holds
      ]
  delete_each_complete id d (k ∷ keys) s (here, there) (inr later) stored holds =
      absurd (ground arith)

module _ {r : Redis Key Value} (a : Available r) (e : Env) (ttl : ℕ) where
  claims_verdict :
      (o : Option Claims) (s s' : r.State)
      → ((id : String) → r.get (blacklist_session id) s' ≡ r.get (blacklist_session id) s)
      → (verify_claims r e o s').0 ≡ (verify_claims r e o s).0
  unfolding verify_claims is_session_revoked
  claims_verdict none s s' kept = refl
  claims_verdict (some c) s s' kept =
      rw
        (
          a.exists-get (blacklist_session c.session_id) s',
          a.exists-get (blacklist_session c.session_id) s,
          kept c.session_id,
        )
        refl

  same_verdict :
      (token : String) (s s' : r.State)
      → ((id : String) → r.get (blacklist_session id) s' ≡ r.get (blacklist_session id) s)
      → (verify_access_token r e token s').0 ≡ (verify_access_token r e token s).0
  unfolding verify_access_token
  same_verdict token s s' kept = claims_verdict (e.verify_access_token token) s s' kept

  -- After the sessions of an organisation are revoked, every session of it that Redis held under
  -- its own id is gone; none is blacklisted: the check of every access token answers as before.
  verify-revoke_all_org_sessions :
      (org token : String) (d : SessionData) (s : r.State)
      → r.get (session d.id) s ≡ hit (session_json d)
      → d.org_id ≡ org
      → let s' = (revoke_all_org_sessions r e ttl org s).1 in
        (r.get (session d.id) s' ≡ nil)
        × ((verify_access_token r e token s').0 ≡ (verify_access_token r e token s).0)
  unfolding revoke_all_org_sessions Store.delete_by_org delete_matching is_session_key
  verify-revoke_all_org_sessions org token d s stored owner =
      let found : is_hit (r.get (session d.id) s) ≡ true = rw stored refl in
      let own : str_eq d.org_id org ≡ true = (eq_iff d.org_id org).1 owner in
      let keys = a.scan-All is_session_key s in
      (
        delete_each_complete a _ d.id d _ s keys (a.scan-Any is_session_key _ s refl found) stored
            own,
        same_verdict token s _ (λ id. get-delete_each_ne a _ (blacklist_session id) _ s refl keys),
      )
