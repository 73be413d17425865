-- ===== src/Session/Frame.antt =====
-- The keys that the writes of internal/service/session leave alone, and what they leave under the others.
use auth.Base.{List, Option-cases, String, Uuid, arith, inl, inr, ok, refl, ℕ, ◌∙◌, ◌≡◌, ◌≢◌}
use auth.Redis.{Available, Redis}
use auth.Session.Data.{
  Claims, Env, Fresh, Key, RefreshTokenData, SessionData, Value, refresh, refresh_family, session,
}
use auth.Session.Store.{new_session}
use auth.Session.Store as Store
use auth.Session.Refresh as Refresh
use auth.Session.Service.{start_session, issue}

module _ {r : Redis Key Value} (a : Available r) where
  pub create_ok :
      (ttl now : ℕ) (new_id : String) (d : SessionData) (s : r.State)
      → (Store.create r ttl now new_id d s).0 ≡ ok tt
  unfolding Store.create
  create_ok ttl now new_id d s = rw (a.set_ok _ _ _ s) refl

  pub get-create_ne :
      (j : Key) (ttl now : ℕ) (new_id : String) (d : SessionData) (s : r.State)
      → j ≢ session (new_session ttl now new_id d).id
      → r.get j (Store.create r ttl now new_id d s).1 ≡ r.get j s
  unfolding Store.create
  get-create_ne j ttl now new_id d s other = a.get-set_ne j _ _ _ s other

  pub issued_ok :
      (now : ℕ) (t : RefreshTokenData) (s : r.State) → (Refresh.create r now t s).0 ≡ ok tt
  unfolding Refresh.create
  issued_ok now t s = rw (a.set_ok _ _ _ s, a.sadd_ok _ _ _, a.expire_ok _ _ _) refl

  pub get-issue_ne :
      (j : Key) (now : ℕ) (t : RefreshTokenData) (s : r.State)
      → j ≢ refresh t.token_hash
      → j ≢ refresh_family t.family_id
      → r.get j (Refresh.create r now t s).1 ≡ r.get j s
  unfolding Refresh.create
  get-issue_ne j now t s other family =
      a.get-expire_ne j _ _ _ family ∙ a.get-sadd_ne j _ _ _ family ∙ a.get-set_ne j _ _ _ s other

  module _ (e : Env) (ttl : ℕ) where
    -- The keys that the start of a session leaves alone.
    pub get-start_session_ne :
        (j : Key) (now : ℕ) (fresh : Fresh) (user org : Uuid) (claims : Claims) (client : String)
        (scopes : List String) (given : SessionData) (s : r.State)
        → j ≢ session (new_session ttl now fresh.session_id given).id
        → j ≢ refresh (e.hash_token fresh.refresh_token)
        → j ≢ refresh_family fresh.family_id
        → r.get j (start_session r e ttl now fresh user org claims client scopes given s).1
          ≡ r.get j s
    unfolding start_session issue
    get-start_session_ne j now fresh user org claims client scopes given s other hash family =
        rw (create_ok ttl now fresh.session_id given s)
          (elim (Option-cases (e.issue_access_token fresh.session_id user org claims)) [
            | inl refused ↦
                rw (issue, refused) (get-create_ne j ttl now fresh.session_id given s other)
            | inr (token, issued) ↦
                rw (issue, issued)
                  (rw (issued_ok now _ _) (
                    get-issue_ne j now _ _ hash family
                    ∙ get-create_ne j ttl now fresh.session_id given s other))
          ])

    -- A refresh token other than the one that is drawn keeps its record.
    pub get-start_session :
        (hash : String) (now : ℕ) (fresh : Fresh) (user org : Uuid) (claims : Claims)
        (client : String) (scopes : List String) (given : SessionData) (s : r.State)
        → hash ≢ e.hash_token fresh.refresh_token
        → r.get
            (refresh hash)
            (start_session r e ttl now fresh user org claims client scopes given s).1
          ≡ r.get (refresh hash) s
    get-start_session hash now fresh user org claims client scopes given s other =
        get-start_session_ne (refresh hash) now fresh user org claims client scopes given s
          (ground arith) (ground arith) (ground arith)
