-- ===== src/Workflow/Users.antt =====
-- The callbacks that change, delete, lock and unlock a user (internal/api/rest/wfcallback/user.go). The
-- reads for the audit log, and the log, are left out.
use auth.Base.{Effect, Option, Result, String, Uuid, fail, ok, return, ℕ, ◌>>=◌, ◌>>◌}
use auth.Account.Tables.{Tables}
use auth.Account.Admin.{
  UpdateUserInput, change_user, delete_user, lock_user, unlock_user, update_user_status,
}
use auth.Workflow.Envelope.{
  Fields, Refusal, bind_wf_envelope, data_str_ptr, internal_error, param_id,
}

-- `wfFail`
abbrev pub or_fail : {E A : Type 0} → Result E A × Tables → Result Refusal A × Tables
or_fail (ok a, t) = (ok a, t)
or_fail (fail x, t) = (fail internal_error, t)

abbrev pub served : {E A : Type 0} → Effect E Tables A → Effect Refusal Tables A
served call t = or_fail (call t)

module _ (parse : String → Option Uuid) where
  abbrev Step : Type 0
  Step = Effect Refusal Tables Uuid

  unfoldable pub update_user_input : Fields → UpdateUserInput
  unfolding data_str_ptr
  update_user_input m = record {
    username = data_str_ptr m "username";
    email = data_str_ptr m "email";
    full_name = data_str_ptr m "full_name";
    status = data_str_ptr m "status";
  }

  unfoldable pub handle_wf_update_user : ℕ → String → Option Fields → Step
  unfolding param_id bind_wf_envelope update_user_input change_user
  handle_wf_update_user now param body = do
    id ← param_id parse param
    env ← bind_wf_envelope parse body
    u ← served (change_user now id (update_user_input env.body))
    return id

  unfoldable pub handle_wf_delete_user : ℕ → String → Option Fields → Step
  unfolding param_id bind_wf_envelope delete_user
  handle_wf_delete_user now param body = do
    id ← param_id parse param
    env ← bind_wf_envelope parse body
    served (delete_user now id)
    return id

  -- `statusChange`, which is given what the service does.
  unfoldable pub status_change :
      {A E : Type 0} → (Uuid → Effect E Tables A) → String → Option Fields → Step
  unfolding param_id bind_wf_envelope
  status_change change param body = do
    id ← param_id parse param
    env ← bind_wf_envelope parse body
    u ← served (change id)
    return id

  unfoldable pub handle_wf_lock : ℕ → String → Option Fields → Step
  unfolding status_change update_user_status
  handle_wf_lock now = status_change (lock_user now)

  unfoldable pub handle_wf_unlock : ℕ → String → Option Fields → Step
  unfolding status_change update_user_status
  handle_wf_unlock now = status_change (unlock_user now)
