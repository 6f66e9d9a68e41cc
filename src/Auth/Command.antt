-- ===== src/Auth/Command.antt =====
-- The methods of crates/cloudledger-server/src/auth.rs that change the accounts or the sessions, as one
-- command language.
use cloud_ledger.Base.{List, [], ◌∷◌, Text}
use cloud_ledger.Types.{Uuid}
use cloud_ledger.Auth.State.{Crypto, Draws, SessionKind, AuthService}
use cloud_ledger.Auth.Sessions.{RefreshInput, refresh_for_client, logout, logout_refresh}
use cloud_ledger.Auth.Users.{RegisterInput, AdminCreateUserInput, LoginInput}
use cloud_ledger.Auth.Accounts.{
  register, create_or_update_admin_user, login_for_client, admin_login,
}
use cloud_ledger.Auth.Passwords.{
  change_admin_password, reset_organization_admin_password, mark_organization_admin, update_profile,
}

pub data AuthCall : Type 0 where
  registers : RegisterInput → AuthCall
  enters_user : AdminCreateUserInput → AuthCall
  logs_in : LoginInput → SessionKind → AuthCall
  logs_in_admin : LoginInput → AuthCall
  changes_password : Text → Text → Text → AuthCall
  resets_password : Uuid → Text → AuthCall
  refreshes : RefreshInput → SessionKind → AuthCall
  logs_out logs_out_refresh : Text → AuthCall
  marks_admin : Uuid → Uuid → AuthCall
  updates_profile : Text → Text → AuthCall

module _ (crypto : Crypto) where
  -- The state after one call, whether it succeeds or fails.
  unfoldable pub after_auth : Draws → AuthCall → AuthService → AuthService
  after_auth w (registers input) s = (register crypto w input s).1
  after_auth w (enters_user input) s = (create_or_update_admin_user crypto w input s).1
  after_auth w (logs_in input kind) s = (login_for_client crypto w input kind s).1
  after_auth w (logs_in_admin input) s = (admin_login crypto w input s).1
  after_auth w (changes_password access_token current new) s =
      (change_admin_password crypto w access_token current new s).1
  after_auth w (resets_password user new) s =
      (reset_organization_admin_password crypto w user new s).1
  after_auth w (refreshes input kind) s = (refresh_for_client crypto w input kind s).1
  after_auth w (logs_out access_token) s = (logout crypto w access_token s).1
  after_auth w (logs_out_refresh refresh_token) s = (logout_refresh crypto w refresh_token s).1
  after_auth w (marks_admin user organization) s =
      (mark_organization_admin crypto w user organization s).1
  after_auth w (updates_profile access_token name) s =
      (update_profile crypto w access_token name s).1

  unfoldable pub after_auths : List (Draws × AuthCall) → AuthService → AuthService
  after_auths [] s = s
  after_auths ((w, c) ∷ rest) s = after_auths rest (after_auth w c s)
