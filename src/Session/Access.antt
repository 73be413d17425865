-- ===== src/Session/Access.antt =====
-- The access tokens of a session (`VerifyAccessToken` and `IssueDelegatedAccessToken` of
-- internal/service/session/service.go).
use auth.Base.{
  Bool, Option, String, Uuid, false, if◌then◌else◌, none, some, str_eq, true, fail, ok, ◌>>=◌,
}
use auth.Redis.{Redis}
use auth.Session.Data.{
  Claims, Env, Key, M, Outcome, Value, invalid_token, issue_failed, session_revoked,
}
use auth.Session.Refresh as Refresh

module _ (r : Redis Key Value) (e : Env) where
  unfoldable pub check_revoked : Claims → Outcome Bool → Outcome Claims
  check_revoked claims (fail x) = fail x
  check_revoked claims (ok true) = fail session_revoked
  check_revoked claims (ok false) = ok claims

  unfoldable pub verify_claims : Option Claims → M r.State Claims
  unfolding check_revoked
  verify_claims none s = (fail invalid_token, s)
  verify_claims (some claims) s =
      (check_revoked claims (Refresh.is_session_revoked r claims.session_id s).0, s)

  unfoldable pub verify_access_token : String → M r.State Claims
  unfolding verify_claims
  verify_access_token access_token = verify_claims (e.verify_access_token access_token)

  unfoldable pub delegated_org : Uuid → String → Uuid
  delegated_org nil_id text =
      if str_eq text ""
      then nil_id
      else let (id, valid) = e.parse_uuid text in if valid then id else nil_id

  issue_delegated : Uuid → Claims → M r.State String
  unfolding delegated_org
  issue_delegated nil_id c s =
      let (user_id, valid) = e.parse_uuid c.subject in
      if valid
      then elim (e.issue_access_token c.session_id user_id (delegated_org nil_id c.org_id)
          (record c {
            subject = "";
            org_id = "";
            username = "";
            email = "";
            branch_code = "";
            issued_at = 0;
            expires_at = 0;
            act = some (e.uuid_string user_id);
          })) [ none ↦ (fail issue_failed, s) | some token ↦ (ok token, s) ]
      else (fail invalid_token, s)

  unfoldable pub issue_delegated_access_token : Uuid → String → M r.State String
  unfolding issue_delegated
  issue_delegated_access_token nil_id subject_token =
      verify_access_token subject_token >>= issue_delegated nil_id
