-- ===== src/Auth/State.antt =====
-- The state of `AuthService` and its inputs (crates/cloudledger-server/src/auth.rs), and the tests of
-- the inputs.
use cloud_ledger.Base.{
  ℕ, ◌*◌, ◌≡◌, ◌↔◌, Bool, true, not, ◌&&◌, Option, none, some, [], ◌∷◌, arith, Text, text, text_eq,
  trim, is_empty, nat_beq, PartialEq, if◌then◌else◌, leb, length,
}
use cloud_ledger.Base.Exec.{Result, ok, err, Exec}
use cloud_ledger.Base.Table.{Table}
use cloud_ledger.Types.{Uuid, OffsetDateTime}
use cloud_ledger.Auth.Error.{AuthError}

pub record Crypto : Type 0 where
  pub sha256_hex : Text → Text
  pub verify_password : Text → Text → Bool
  pub to_lowercase : Text → Text

pub record Draws : Type 0 where
  pub now_utc : ℕ → OffsetDateTime
  -- In a loop, a time for each round.
  pub round_now_utc : ℕ → ℕ → OffsetDateTime
  pub new_v4 : ℕ → Uuid
  pub random_token : ℕ → Text
  pub hash_password : ℕ → Text → Option Text

pub data AccountKind : Type 0 where
  business organization_admin : AccountKind

abbrev pub account_index : AccountKind → ℕ
account_index AccountKind.business = 0
account_index AccountKind.organization_admin = 1

abbrev pub account_beq : AccountKind → AccountKind → Bool
account_beq a b = nat_beq (account_index a) (account_index b)

pub account_beq_iff : (a b : AccountKind) → (account_beq a b ≡ true) ↔ (a ≡ b)
account_beq_iff a b = ground arith

instance abbrev pub account_eq : PartialEq AccountKind
account_eq = record { same = account_beq; same_iff = account_beq_iff }

pub data SessionKind : Type 0 where
  tauri web admin : SessionKind

abbrev pub session_index : SessionKind → ℕ
session_index SessionKind.tauri = 0
session_index SessionKind.web = 1
session_index SessionKind.admin = 2

abbrev pub session_beq : SessionKind → SessionKind → Bool
session_beq a b = nat_beq (session_index a) (session_index b)

pub session_beq_iff : (a b : SessionKind) → (session_beq a b ≡ true) ↔ (a ≡ b)
session_beq_iff a b = ground arith

instance abbrev pub session_eq : PartialEq SessionKind
session_eq = record { same = session_beq; same_iff = session_beq_iff }

pub record StoredUser : Type 0 where
  pub id : Uuid
  pub display_name : Text
  pub email : Option Text
  pub phone : Option Text
  pub password_hash : Text
  pub account_kind : AccountKind
  pub organization_id : Option Uuid
  pub created_at : OffsetDateTime
  pub updated_at : OffsetDateTime

pub record StoredSession : Type 0 where
  pub id : Uuid
  pub family_id : Uuid
  pub user_id : Uuid
  pub installation_id : Text
  pub access_token : Text
  pub refresh_token : Text
  pub kind : SessionKind
  pub created_at : OffsetDateTime
  pub access_expires_at : OffsetDateTime
  pub refresh_expires_at : Option OffsetDateTime
  pub rotated_at : Option OffsetDateTime
  pub revoked_at : Option OffsetDateTime

pub record AuthService : Type 0 where
  pub users_by_id : Table Uuid StoredUser
  pub user_ids_by_email : Table Text Uuid
  pub user_ids_by_phone : Table Text Uuid
  pub installations_by_id : Table Text Uuid
  pub sessions_by_access_token : Table Text StoredSession
  pub access_tokens_by_refresh_token : Table Text Text

-- `AuthService::default`
unfoldable pub no_accounts : AuthService
no_accounts = record {
  users_by_id = [];
  user_ids_by_email = [];
  user_ids_by_phone = [];
  installations_by_id = [];
  sessions_by_access_token = [];
  access_tokens_by_refresh_token = [];
}

abbrev pub Call : Type 0 → Type 0
Call A = Exec AuthService AuthError A

-- What is shown of a user.
pub record AuthUserDto : Type 0 where
  pub id : Uuid
  pub display_name : Text
  pub email : Option Text
  pub phone : Option Text
  pub account_kind : AccountKind
  pub organization_id : Option Uuid

unfoldable pub auth_user_dto : StoredUser → AuthUserDto
auth_user_dto user = record {
  id = user.id;
  display_name = user.display_name;
  email = user.email;
  phone = user.phone;
  account_kind = user.account_kind;
  organization_id = user.organization_id;
}

-- `Session`
pub record IssuedSession : Type 0 where
  pub user : AuthUserDto
  pub access_token : Text
  pub refresh_token : Text
  pub installation_id : Text

pub record AuthenticatedSession : Type 0 where
  pub user : AuthUserDto
  pub installation_id : Text

pub record AdminSession : Type 0 where
  pub user : AuthUserDto
  pub access_token : Text
  pub organization_id : Uuid

pub record AdminAuthenticatedSession : Type 0 where
  pub user : AuthUserDto
  pub organization_id : Uuid

-- The lifetimes of tokens, in nanoseconds as all times.
abbrev minutes : ℕ → ℕ
minutes n = n * 60 * 1_000_000_000

abbrev pub app_access_token_ttl : ℕ
app_access_token_ttl = minutes 15

abbrev pub app_refresh_token_ttl : ℕ
app_refresh_token_ttl = minutes (30 * 24 * 60)

abbrev pub admin_session_ttl : ℕ
admin_session_ttl = minutes (8 * 60)

abbrev pub min_password_length : ℕ
min_password_length = 12

abbrev pub max_password_length : ℕ
max_password_length = 128

unfoldable pub normalize_display_name : Text → Result AuthError Text
normalize_display_name value =
    if is_empty (trim value) then err AuthError.display_name_required else ok (trim value)

unfoldable pub validate_new_password : Text → Result AuthError Text
validate_new_password value =
    if is_empty (trim value)
    then err AuthError.password_required
    else if not (leb min_password_length (length value) && leb (length value) max_password_length)
    then err AuthError.password_policy_violation
    else ok value

unfoldable pub normalize_installation_id : Text → Result AuthError Text
normalize_installation_id value =
    if is_empty (trim value) then err AuthError.installation_id_required else ok (trim value)

-- `str::strip_prefix`
abbrev strip_prefix : Text → Text → Option Text
strip_prefix [] value = some value
strip_prefix (c ∷ prefix) [] = none
strip_prefix (c ∷ prefix) (d ∷ value) =
    let rest = strip_prefix prefix value in if nat_beq c d then rest else none

abbrev stripped : Option Text → Text → Text
stripped none value = value
stripped (some token) value = token

unfoldable pub normalize_bearer_token : Text → Text
normalize_bearer_token value = stripped (strip_prefix (text "Bearer ") (trim value)) (trim value)

module _ (crypto : Crypto) where
  unfoldable pub token_digest : Text → Text
  token_digest token = crypto.sha256_hex (trim token)

  -- The digest of a token that comes in a header.
  unfoldable pub bearer_digest : Text → Text
  bearer_digest value = token_digest (normalize_bearer_token value)
