-- ===== src/Auth/Error.antt =====
-- `AuthError` of crates/cloudledger-server/src/auth.rs.
use cloud_ledger.Base.{ℕ, Text}

pub data AuthError : Type 0 where
  email_already_registered phone_already_registered login_identifier_required : AuthError
  display_name_required password_required password_policy_violation : AuthError
  installation_id_required installation_already_bound invalid_credentials : AuthError
  login_rate_limited : ℕ → AuthError
  turnstile_required business_app_access_denied admin_access_denied : AuthError
  admin_organization_required session_not_found refresh_replay_detected : AuthError
  password_hash_failed : AuthError
  storage : Text → AuthError
