-- ===== src/Examples/Session.antt =====
-- The sessions at concrete inputs.
use auth.Base.{Option, [], arith, fail, inl, none, ok, refl, some, ℕ, ◌∷◌, ◌≡◌}
use auth.Redis.{hit, nil}
use auth.Session.Data.{
  Claims, LoginResult, Outcome, refresh, refresh_family, refresh_json, session, session_json,
  session_revoked, token_reuse,
}
use auth.Session.Access.{verify_access_token}
use auth.Session.Service.{refresh_tokens, revoke_all_user_sessions}
use auth.Session.Reuse.{refresh_tokens-single_use}
use auth.Session.Family.{refresh_tokens-reuse, IsRevoked}
use auth.Session.Revocation.{verify-revoke_all_user_sessions}
use auth.Session.Login.{refresh_tokens-create_session}
use auth.Session.Service.{create_session}
use auth.Examples.Memory.{
  differ, memory, memory-Available, env, session_data, token_data, store, fresh,
}
use auth.Examples.Map.{lookup, members}

stored_token :
    (used : Option ℕ)
    → memory.get (refresh "secret") (store used) ≡ hit (refresh_json (token_data used))
unfolding lookup
stored_token used = refl

stored_s1 :
    memory.get (session "s1") (store none) ≡ hit (session_json (session_data "s1" "10.0.0.1"))
unfolding lookup
stored_s1 = refl

stored_s2 :
    memory.get (session "s2") (store none) ≡ hit (session_json (session_data "s2" "10.0.0.2"))
unfolding lookup
stored_s2 = refl

family : memory.smembers (refresh_family "f") (store (some 50)) ≡ some ("secret" ∷ [])
unfolding members
family = refl

abbrev first : Outcome LoginResult × memory.State
first = refresh_tokens memory env 900 100 fresh "secret" "10.0.0.1" (store none)

abbrev login : LoginResult
login = record {
  access_token = "s3";
  refresh_token = "new";
  expires_in = 900;
  session_id = "s3";
  user_id = 7;
  org_id = 1;
}

first_succeeds : first ≡ (ok login, first.1)
unfolding refresh_tokens auth.Session.Refresh.get_by_hash lookup auth.Session.Refresh.is_reuse
    auth.Session.Store.get auth.Session.Store.create auth.Session.Refresh.create
first_succeeds = refl

refresh_tokens-single_use_example :
    (refresh_tokens memory env 900 200 fresh "secret" "10.9.9.9" first.1).0 ≡ fail token_reuse
refresh_tokens-single_use_example =
    refresh_tokens-single_use memory-Available env 900 100 fresh "secret" "10.0.0.1" 200 fresh
      "10.9.9.9" {t = token_data none} {s = store none} {s' = first.1} {result = login}
      (stored_token none) (omega arith) (differ "secret" "new" refl) first_succeeds

abbrev reused : Outcome LoginResult × memory.State
reused = refresh_tokens memory env 900 100 fresh "secret" "10.0.0.1" (store (some 50))

refresh_tokens-reuse_example :
    (reused.0 ≡ fail token_reuse)
    × (memory.get (session "s1") reused.1 ≡ nil)
    × IsRevoked memory 100 "secret" reused.1
unfolding auth.Session.Refresh.is_some
refresh_tokens-reuse_example =
    refresh_tokens-reuse memory-Available env 900 100 fresh "secret" "10.0.0.1"
      {t = token_data (some 50)} {s = store (some 50)} (stored_token (some 50)) refl refl
      {hashes = "secret" ∷ []} "secret" family (inl refl)
      (token_data (some 50), stored_token (some 50), omega arith)

abbrev user_revoked : memory.State
user_revoked = (revoke_all_user_sessions memory env 900 "user-7" (store none)).1

verify-revoke_all_user_sessions_example :
    (memory.get (session "s2") user_revoked ≡ nil)
    × ((verify_access_token memory env "s2" user_revoked).0 ≡ fail session_revoked)
verify-revoke_all_user_sessions_example =
    verify-revoke_all_user_sessions memory-Available env 900 "user-7" "s2"
      (session_data "s2" "10.0.0.2") (store none) stored_s2 refl refl refl

abbrev no_claims : Claims
no_claims = record {
  subject = "";
  session_id = "";
  org_id = "";
  client_id = "web";
  roles = "teller" ∷ [];
  scope = "";
  branch_id = "";
  username = "";
  email = "";
  branch_code = "";
  issued_at = 0;
  expires_at = 0;
  act = none;
}

abbrev entered : Outcome LoginResult × memory.State
entered = create_session memory env 900 100 fresh 7 1 "10.0.0.5" "" no_claims (store none)

refresh_tokens-create_session_example :
    (l : LoginResult) × (entered.0 ≡ ok l)
    × (l.user_id ≡ 7)
    × ((again : LoginResult) × ((refresh_tokens memory env 900 500
            (record fresh { session_id = "s4" })
            l.refresh_token
            "10.0.0.5"
            entered.1).0
          ≡ ok again)
        × (again.session_id ≡ "s4")
        × (again.user_id ≡ 7))
refresh_tokens-create_session_example =
    refresh_tokens-create_session memory-Available env 900 100 500 fresh
      (record fresh { session_id = "s4" }) 7 1 "10.0.0.5" "" no_claims (store none) (omega arith)
      (λ id u o c. (id, refl)) refl
