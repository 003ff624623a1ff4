-- ===== src/Schema/Access.antt =====
-- Rows of the merchants, their members, the roles and the permissions.
use tteeka.Prelude.{List, Option, String}
use tteeka.Schema.Types.{Uuid, Key, Hash, Currency, Date}

pub data MerchantStatus : Type 0 where
  active suspended archived : MerchantStatus

pub record Merchant : Type 0 where
  pub id : Uuid
  pub display_name : String
  pub currency : Currency
  pub status : MerchantStatus

-- `MerchantMembershipStatus`, and the same of roles
pub data MembershipStatus : Type 0 where
  active disabled : MembershipStatus

pub data RoleStatus : Type 0 where
  active disabled : RoleStatus

pub data PermissionStatus : Type 0 where
  active deprecated : PermissionStatus

pub record Membership : Type 0 where
  pub id : Uuid
  pub merchant_id : Uuid
  pub user_id : Uuid
  pub status : MembershipStatus
  pub created_at : Date

pub record Role : Type 0 where
  pub id : Uuid
  pub merchant_id : Uuid
  pub name : String
  pub description : Option String
  pub status : RoleStatus

pub record MembershipRole : Type 0 where
  pub merchant_id : Uuid
  pub membership_id : Uuid
  pub role_id : Uuid

pub record Permission : Type 0 where
  pub id : Uuid
  pub key : String
  pub description : Option String
  pub status : PermissionStatus

pub record RolePermission : Type 0 where
  pub merchant_id : Uuid
  pub role_id : Uuid
  pub permission_id : Uuid

pub data UserStatus : Type 0 where
  active disabled : UserStatus

pub record User : Type 0 where
  pub id : Uuid
  pub display_name : String
  pub phone_e164 : String
  pub email : Option String
  pub status : UserStatus

pub record PasswordCredential : Type 0 where
  pub id : Uuid
  pub user_id : Uuid
  pub password_hash : String

pub record Session : Type 0 where
  pub id : Uuid
  pub user_id : Uuid
  pub token_hash : String
  pub last_used_at : Date
  pub expires_at : Date
  pub revoked_at : Option Date
  pub user_agent : Option String
  pub ip_address : Option String

pub data OnboardingKind : Type 0 where
  register workspace : OnboardingKind

-- The subject of a registration is the text `public`, here none; that of a workspace is its user.
pub record OnboardingCommand : Type 0 where
  pub kind : OnboardingKind
  pub subject : Option Uuid
  pub idempotency_key : Key
  pub request_hash : Hash
  pub user_id : Uuid
  pub merchant_id : Uuid
  pub membership_id : Uuid

-- The tables of access control.
pub record AccessTables : Type 0 where
  pub users : List User
  pub merchants : List Merchant
  pub memberships : List Membership
  pub roles : List Role
  pub membership_roles : List MembershipRole
  pub permissions : List Permission
  pub role_permissions : List RolePermission
  pub credentials : List PasswordCredential
  pub sessions : List Session
  pub commands : List OnboardingCommand
