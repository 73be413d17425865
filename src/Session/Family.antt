-- ===== src/Session/Family.antt =====
-- What a refused refresh of internal/service/session leaves behind: the token's family and its session.
use auth.Base.{
  Any, Bool-cases, List, Option, String, [], arith, difference, difference_pos, eq_iff, false, inl,
  inr, none, not, pos, refl, some, str_eq, subst, sym, true, ℕ, ◌-◌, ◌<◌, ◌==◌, ◌∙◌, ◌∷◌, ◌≡◌, ◌≢◌,
  fail,
}
use auth.Redis.{Available, Redis, hit, nil}
use auth.Session.Data.{
  Env, Fresh, Key, RefreshTokenData, Value, refresh, refresh_family, refresh_json, session,
  token_reuse,
}
use auth.Session.Store as Store
use auth.Session.Refresh.{
  is_some, decode_token, revoke_member, revoke_unless, revoke_members, write_revoked, is_positive,
}
use auth.Session.Refresh as Refresh
use auth.Session.Service.{refresh_tokens, on_reuse}
use auth.Session.Branches.{reuse_branch}

module _ (r : Redis Key Value) (now : ℕ) (hash : String) where
  -- The token has a record, and it is revoked.
  abbrev pub IsRevoked : r.State → Type 0
  IsRevoked s =
      (t : RefreshTokenData) × (r.get (refresh hash) s ≡ hit (refresh_json t))
      × (is_some t.revoked_at ≡ true)

  -- The token has a record that has not expired.
  abbrev pub IsLive : r.State → Type 0
  IsLive s =
      (t : RefreshTokenData) × (r.get (refresh hash) s ≡ hit (refresh_json t))
      × (now < t.expires_at)

module _ {r : Redis Key Value} (a : Available r) (now : ℕ) where
  get-revoke_unless_ne :
      (j : Key) (h : String) (o : Option RefreshTokenData) (s : r.State)
      → j ≢ refresh h
      → r.get j (revoke_unless r now h o s) ≡ r.get j s
  unfolding revoke_unless write_revoked
  get-revoke_unless_ne j h none s other = refl
  get-revoke_unless_ne j h (some t) s other = elim (Bool-cases (is_some t.revoked_at)) [
    | inl d ↦ rw d refl
    | inr l ↦ rw l (elim (Bool-cases (is_positive (difference t.expires_at now))) [
      | inl p ↦ rw p (a.get-set_ne j _ _ _ s other)
      | inr p ↦ rw p refl
    ])
  ]

  pub get-revoke_members_ne :
      (j : Key) (hs : List String) (s : r.State)
      → ((h : String) → j ≢ refresh h)
      → r.get j (revoke_members r now hs s) ≡ r.get j s
  unfolding revoke_members revoke_member
  get-revoke_members_ne j [] s h = refl
  get-revoke_members_ne j (x ∷ hs) s other =
      get-revoke_members_ne j hs (revoke_member r now x s) other
      ∙ get-revoke_unless_ne j x _ s (other x)

  revoke_member-again :
      (hash : String) (s : r.State)
      → IsRevoked r now hash s
      → IsRevoked r now hash (revoke_member r now hash s)
  unfolding revoke_member decode_token revoke_unless
  revoke_member-again hash s (t, stored, revoked) =
      let same : revoke_member r now hash s ≡ s = rw stored (rw revoked refl) in
      rw same (t, stored, revoked)

  revoke_member-first :
      (hash : String) (s : r.State)
      → IsLive r now hash s
      → IsRevoked r now hash (revoke_member r now hash s)
  unfolding revoke_member decode_token revoke_unless write_revoked is_positive is_some
  revoke_member-first hash s (t, stored, valid) = elim (Bool-cases (is_some t.revoked_at)) [
    | inl d ↦ revoke_member-again hash s (t, stored, d)
    | inr l ↦
        let some_time : not ((t.expires_at - now) == 0) ≡ true = ground arith in
        let set : Key → r.State = λ k.
          (r.set k (refresh_json (record t { revoked_at = some now })) (pos (t.expires_at - now))
            s).0 in
        let written_eq : revoke_member r now hash s ≡ set (refresh hash) =
          rw stored (rw l (rw (difference_pos t.expires_at now valid) (rw some_time refl))) in
        rw written_eq
          (record t { revoked_at = some now }, a.get-set_self _ _ _ s (omega arith), refl)
  ]

  revoke_member-IsRevoked :
      (h hash : String) (s : r.State)
      → IsRevoked r now hash s
      → IsRevoked r now hash (revoke_member r now h s)
  unfolding revoke_member
  revoke_member-IsRevoked h hash s revoked = elim (Bool-cases (str_eq h hash)) [
    | inl same ↦
        subst (λ x. IsRevoked r now hash (revoke_member r now x s)) (sym ((eq_iff h hash).0 same))
          (revoke_member-again hash s revoked)
    | inr other ↦
        let (t, stored, gone) = revoked in
        (
          t,
          get-revoke_unless_ne (refresh hash) h _ s (ground (arith, eq_iff h hash)) ∙ stored,
          gone,
        )
  ]

  pub revoke_members-IsRevoked :
      (hs : List String) (hash : String) (s : r.State)
      → IsRevoked r now hash s
      → IsRevoked r now hash (revoke_members r now hs s)
  unfolding revoke_members
  revoke_members-IsRevoked [] hash s revoked = revoked
  revoke_members-IsRevoked (h ∷ hs) hash s revoked =
      revoke_members-IsRevoked hs hash _ (revoke_member-IsRevoked h hash s revoked)

  -- Every listed token with a live record is revoked.
  pub revoke_members_complete :
      (hs : List String) (hash : String) (s : r.State)
      → Any (λ h. h ≡ hash) hs
      → IsLive r now hash s
      → IsRevoked r now hash (revoke_members r now hs s)
  unfolding revoke_members revoke_member
  revoke_members_complete [] hash s none_listed live = elim none_listed [ ]
  revoke_members_complete (h ∷ hs) hash s (inl same) live = revoke_members-IsRevoked hs hash _ (
      subst (λ x. IsRevoked r now hash (revoke_member r now x s)) (sym same)
        (revoke_member-first hash s live))
  revoke_members_complete (h ∷ hs) hash s (inr later) live = elim (Bool-cases (str_eq h hash)) [
    | inl same ↦ revoke_members-IsRevoked hs hash _ (
        subst (λ x. IsRevoked r now hash (revoke_member r now x s)) (sym ((eq_iff h hash).0 same))
          (revoke_member-first hash s live))
    | inr other ↦
        let (t, stored, valid) = live in
        revoke_members_complete hs hash _ later (
          t,
          get-revoke_unless_ne (refresh hash) h _ s (ground (arith, eq_iff h hash)) ∙ stored,
          valid,
        )
  ]

module _ {r : Redis Key Value} (a : Available r) (e : Env) (ttl now : ℕ) (fresh : Fresh)
    (token ip : String) {t : RefreshTokenData} {s : r.State}
    (stored : r.get (refresh (e.hash_token token)) s ≡ hit (refresh_json t))
    (live : is_some t.revoked_at ≡ false) (used : is_some t.used_at ≡ true) where
  -- A used token that is not revoked is refused when it comes again; then the session that its
  -- record names is gone, and every member of its family whose record has not expired is revoked.
  pub refresh_tokens-reuse :
      {hashes : List String} (member : String)
      → r.smembers (refresh_family t.family_id) s ≡ some hashes
      → Any (λ h. h ≡ member) hashes
      → IsLive r now member s
      → let (answer, s') = refresh_tokens r e ttl now fresh token ip s in
        (answer ≡ fail token_reuse)
        × (r.get (session t.session_id) s' ≡ nil)
        × IsRevoked r now member s'
  unfolding on_reuse Refresh.revoke_family Store.delete Refresh.revoke_listed
  refresh_tokens-reuse {hashes} member members listed valid =
      let (u, kept, revoked) = revoke_members_complete a now hashes member s listed valid in
      rw (reuse_branch r e ttl now fresh token ip stored live used) (
        rw members
          (refl, a.get-del_self _ _, (u, a.get-del_ne _ _ _ (ground arith) ∙ kept, revoked)))

  -- When a used token that is not revoked is refused, every session other than the one that its
  -- record names keeps its record.
  refresh_tokens-reuse_keeps :
      {hashes : List String} (id : String)
      → r.smembers (refresh_family t.family_id) s ≡ some hashes
      → id ≢ t.session_id
      → r.get (session id) (refresh_tokens r e ttl now fresh token ip s).1 ≡ r.get (session id) s
  unfolding on_reuse Refresh.revoke_family Store.delete Refresh.revoke_listed
  refresh_tokens-reuse_keeps {hashes} id members other =
      rw (reuse_branch r e ttl now fresh token ip stored live used) (
        rw members (
          a.get-del_ne _ _ _ (ground arith)
          ∙ get-revoke_members_ne a now _ hashes s (λ h. ground arith)))
