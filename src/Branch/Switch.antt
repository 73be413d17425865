-- ===== src/Branch/Switch.antt =====
-- The switch of a session to another branch (`handleSwitchBranch` of internal/api/rest/branch.go). The
-- event that it publishes is left out.
use auth.Base.{
  Effect, List, Option, Result, String, Uuid, fail, found_or, if◌then◌else◌, none, ok, refuse_if,
  some, str_eq, ℕ, ◌>>=◌, ◌>>◌,
}
use auth.Strings.{strip_prefix}
use auth.Redis.{Redis}
use auth.Session.Data.{Claims, Env, Fresh, Key, LoginResult, M, Outcome, Value}
use auth.Session.Access.{verify_access_token}
use auth.Session.Service.{create_session, revoke_session}
use auth.Branch.Data.{UserBranchAssignment}
use auth.Branch.Assignments.{Directory, get_by_user_and_branch}

-- The answers, with the status of an error.
pub data SwitchRefusal : Type 0 where
  bad_body bad_token bad_branch_id not_assigned revoke_failed create_failed : SwitchRefusal

pub record Switched : Type 0 where
  pub login : LoginResult
  pub branch_id : Uuid
  pub branch_code : String

-- `trimBearer`, where an empty rest is no token.
unfoldable pub trim_bearer : String → Option String
unfolding strip_prefix
trim_bearer auth = elim (strip_prefix "Bearer " auth) [
  | none ↦ none
  | some token ↦ if str_eq token "" then none else some token
]

unfoldable pub switch_claims : Env → Claims → List String → Uuid → UserBranchAssignment → Claims
switch_claims e c roles branch a = record {
  subject = "";
  session_id = "";
  org_id = "";
  client_id = "";
  roles = roles;
  scope = "";
  branch_id = e.uuid_string branch;
  username = c.username;
  email = c.email;
  branch_code = a.branch_code;
  issued_at = 0;
  expires_at = 0;
  act = none;
}

abbrev pub relabel : {A B : Type 0} → SwitchRefusal → (A → B) → Outcome A → Result SwitchRefusal B
relabel refusal f (ok a) = ok (f a)
relabel refusal f (fail x) = fail refusal

module _ (r : Redis Key Value) (e : Env) (ttl : ℕ) (roles : Uuid → List String) where
  abbrev Step : Type 0 → Type 0
  Step A = Effect SwitchRefusal r.State A

  abbrev pub or_refuse : {A B : Type 0} → SwitchRefusal → (A → B) → M r.State A → Step B
  or_refuse refusal f call s = let (o, s') = call s in (relabel refusal f o, s')

  unfoldable pub switch_to :
      ℕ → Fresh → String → String → Claims → Uuid → Uuid → UserBranchAssignment → Step Switched
  unfolding revoke_session create_session
  switch_to now fresh ip user_agent c user branch a = do
    or_refuse revoke_failed (λ done. done) (revoke_session r e ttl c.session_id)
    or_refuse create_failed
        (λ login. record { login = login; branch_id = branch; branch_code = a.branch_code })
        (create_session r e ttl now fresh user (e.parse_uuid c.org_id).0 ip user_agent
          (switch_claims e c (roles user) branch a))

  -- `parse` is `uuid.Parse`; `body` is the field "branch_id", or `none` if it is not given.
  unfoldable pub handle_switch_branch :
      (String → Option Uuid)
      → Directory
      → ℕ
      → Fresh
      → String
      → String
      → String
      → Option String
      → Step Switched
  unfolding trim_bearer verify_access_token get_by_user_and_branch
  handle_switch_branch parse d now fresh ip user_agent auth body = do
    text ← found_or bad_body body
    refuse_if (str_eq text "") bad_body
    token ← found_or bad_token (trim_bearer auth)
    c ← or_refuse bad_token (λ claims. claims) (verify_access_token r e token)
    user ← found_or bad_token (parse c.subject)
    branch ← found_or bad_branch_id (parse text)
    a ← found_or not_assigned (get_by_user_and_branch user branch d)
    switch_to now fresh ip user_agent c user branch a
