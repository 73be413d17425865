-- ===== src/Session/Reuse.antt =====
-- A refresh token of internal/service/session is good for one refresh.
use auth.Base.{
  Bool-cases, Option, String, ap, arith, difference_pos, false, inl, inr, none, refl, some, str_eq,
  sym, true, ℕ, ◌-◌, ◌<◌, ◌∙◌, ◌≡◌, ◌≢◌, as_option, fail, ok,
}
use auth.Redis.{Available, Redis, hit}
use auth.Session.Data.{
  Env, Fresh, Key, LoginResult, M, RefreshTokenData, SessionData, Value, ip_mismatch, refresh,
  refresh_json, session, session_not_found, token_reuse,
}
use auth.Session.Store.{decode_session}
use auth.Session.Refresh.{is_some, eight_hours, revoke_members}
use auth.Session.Refresh as Refresh
use auth.Session.Service.{start_session, refresh_tokens, on_reuse, rotate}
use auth.Session.Branches.{refreshed_claims, revoked_branch, reuse_branch, unused_branch}
use auth.Session.Frame.{get-start_session}

-- The session that a token's record names, if it can be read.
abbrev pub session_of : (r : Redis Key Value) → RefreshTokenData → r.State → Option SessionData
session_of r t s = as_option (decode_session (r.get (session t.session_id) s))

-- `RefreshTokens` from the point where the new session is written.
abbrev pub restart :
    (r : Redis Key Value)
    → Env
    → ℕ
    → ℕ
    → Fresh
    → String
    → String
    → RefreshTokenData
    → SessionData
    → M r.State LoginResult
restart r e ttl now fresh hash ip t d s =
    start_session r e ttl now fresh (e.parse_uuid t.user_id).0 (e.parse_uuid t.org_id).0
      (refreshed_claims t) t.client_id t.scopes
      (record d { id = fresh.session_id; ip_address = ip }) (Refresh.mark_used r now hash s).1

module _ (r : Redis Key Value) (e : Env) (ttl now : ℕ) (fresh : Fresh) (hash ip : String)
    (t : RefreshTokenData) (s : r.State) where
  pub rotate-same_ip :
      (d : SessionData)
      → str_eq d.ip_address ip ≡ true
      → rotate r e ttl now fresh hash ip t (some d) s ≡ restart r e ttl now fresh hash ip t d s
  unfolding rotate
  rotate-same_ip d same = rw same refl

  rotate-other_ip :
      (d : SessionData)
      → str_eq d.ip_address ip ≡ false
      → (rotate r e ttl now fresh hash ip t (some d) s).0 ≡ fail ip_mismatch
  unfolding rotate
  rotate-other_ip d other = rw other refl

  rotate-lost : (rotate r e ttl now fresh hash ip t none s).0 ≡ fail session_not_found
  unfolding rotate
  rotate-lost = refl

  rotate-ok :
      (o : Option SessionData) {s' : r.State} {result : LoginResult}
      → rotate r e ttl now fresh hash ip t o s ≡ (ok result, s')
      → (d : SessionData) × (o ≡ some d)
        × (str_eq d.ip_address ip ≡ true)
        × (restart r e ttl now fresh hash ip t d s ≡ (ok result, s'))
  rotate-ok none done = absurd (ground (arith, done, rotate-lost))
  rotate-ok (some d) done = elim (Bool-cases (str_eq d.ip_address ip)) [
    | inl same ↦ (d, refl, same, sym (rotate-same_ip d same) ∙ done)
    | inr other ↦ absurd (ground (arith, done, rotate-other_ip d other))
  ]

  on_reuse-fails : (on_reuse r e ttl now fresh hash ip t true s).0 ≡ fail token_reuse
  unfolding on_reuse
  on_reuse-fails = refl

module _ (r : Redis Key Value) (e : Env) (ttl now : ℕ) (fresh : Fresh) (token ip : String)
    {t : RefreshTokenData} {s : r.State}
    (stored : r.get (refresh (e.hash_token token)) s ≡ hit (refresh_json t)) where
  -- The refresh succeeds on no other branch.
  pub rotated :
      {s' : r.State} {result : LoginResult}
      → refresh_tokens r e ttl now fresh token ip s ≡ (ok result, s')
      → (is_some t.revoked_at ≡ false)
        × (is_some t.used_at ≡ false)
        × ((d : SessionData) × (session_of r t s ≡ some d)
            × (str_eq d.ip_address ip ≡ true)
            × (restart r e ttl now fresh (e.hash_token token) ip t d s ≡ (ok result, s')))
  rotated {s'} {result} done = elim (Bool-cases (is_some t.revoked_at)) [
    | inl revoked ↦
        absurd (ground (arith, done, revoked_branch r e ttl now fresh token ip stored revoked))
    | inr live ↦ elim (Bool-cases (is_some t.used_at)) [
      | inl used ↦ absurd (
          ground (
            arith,
            done,
            reuse_branch r e ttl now fresh token ip stored live used,
            on_reuse-fails r e ttl now fresh (e.hash_token token) ip t s,
          ))
      | inr unused ↦ (
        live,
        unused,
        rotate-ok r e ttl now fresh (e.hash_token token) ip t s (session_of r t s)
            (sym (unused_branch r e ttl now fresh token ip stored live unused) ∙ done),
      )
    ]
  ]

module _ {r : Redis Key Value} (a : Available r) (e : Env) where
  get-mark_used :
      (now : ℕ) (hash : String) {t : RefreshTokenData} {s : r.State}
      → now < t.expires_at
      → r.get (refresh hash) s ≡ hit (refresh_json t)
      → r.get (refresh hash) (Refresh.mark_used r now hash s).1
        ≡ hit (refresh_json (record t { used_at = some now }))
  unfolding Refresh.mark_used Refresh.get_by_hash Refresh.decode_token
  get-mark_used now hash {t} {s} valid stored = rw stored (
      rw (difference_pos t.expires_at now valid)
        (a.get-set_self (refresh hash) _ (t.expires_at - now) s (omega arith)))

  -- Once a refresh has succeeded for a token whose record has not expired, and the token that it
  -- drew has another hash, the refreshed token is refused as a reuse by the state that is left,
  -- at whatever time and from whatever address it comes again.
  pub refresh_tokens-single_use :
      (ttl now : ℕ) (fresh : Fresh) (token ip : String) (later : ℕ) (fresh' : Fresh) (ip' : String)
      {t : RefreshTokenData} {s s' : r.State} {result : LoginResult}
      → r.get (refresh (e.hash_token token)) s ≡ hit (refresh_json t)
      → now < t.expires_at
      → e.hash_token token ≢ e.hash_token fresh.refresh_token
      → refresh_tokens r e ttl now fresh token ip s ≡ (ok result, s')
      → (refresh_tokens r e ttl later fresh' token ip' s').0 ≡ fail token_reuse
  unfolding is_some
  refresh_tokens-single_use ttl now fresh token ip later fresh' ip' {t} {s} {s'} stored valid drawn
        done =
      let hash = e.hash_token token in
      let (live, unused, (d, found, same, run)) = rotated r e ttl now fresh token ip stored done in
      let kept : r.get (refresh hash) s' ≡ hit (refresh_json (record t { used_at = some now })) =
        ap (λ p. r.get (refresh hash) p.1) (sym run)
        ∙ get-start_session a e ttl hash now fresh _ _ _ _ _ _ _ drawn
        ∙ get-mark_used now hash valid stored in
      ap (λ p. p.0) (reuse_branch r e ttl later fresh' token ip' kept live refl)
      ∙ on_reuse-fails r e ttl later fresh' hash ip' _ s'
