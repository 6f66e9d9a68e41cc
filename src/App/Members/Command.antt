-- ===== src/App/Members/Command.antt =====
-- The methods on organizations, members and users of crates/cloudledger-service/src/app.rs as one
-- command language.
use cloud_ledger.Base.{List, [], ◌∷◌}
use cloud_ledger.Types.{Uuid}
use cloud_ledger.App.State.{World, AppLedgerService}
use cloud_ledger.App.Identity.{AppEnsureUserIdentityInput, ensure_user_identity}
use cloud_ledger.App.Members.{
  AppCreateOrganizationInput, AppAddOrganizationMemberInput, AppUpdateOrganizationMemberRoleInput,
  create_organization, add_organization_member, update_organization_member_role,
  remove_organization_member,
}

pub data MemberCommand : Type 0 where
  create_org : AppCreateOrganizationInput → MemberCommand
  add_member : AppAddOrganizationMemberInput → MemberCommand
  update_role : AppUpdateOrganizationMemberRoleInput → MemberCommand
  remove_member : Uuid → Uuid → MemberCommand
  ensure_identity : AppEnsureUserIdentityInput → MemberCommand

-- The state after one call, whether it succeeds or fails.
unfoldable pub after_call : World → MemberCommand → AppLedgerService → AppLedgerService
after_call w (create_org input) s = (create_organization w input s).1
after_call w (add_member input) s = (add_organization_member w input s).1
after_call w (update_role input) s = (update_organization_member_role input s).1
after_call w (remove_member organization membership) s =
    (remove_organization_member organization membership s).1
after_call w (ensure_identity input) s = (ensure_user_identity w input s).1

unfoldable pub after_calls : List (World × MemberCommand) → AppLedgerService → AppLedgerService
after_calls [] s = s
after_calls ((w, c) ∷ rest) s = after_calls rest (after_call w c s)
