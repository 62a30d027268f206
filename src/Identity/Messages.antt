-- ===== src/Identity/Messages.antt =====
-- proto/gen/identity/v1: the messages of the identity service, with the fields that the server sets or
-- reads.
use e_palika.Prelude.{Bool, String, Option, List}
use e_palika.Prelude.Int.{ℤ}
use e_palika.Store.Types.{Time}

pub data UserStatus : Type 0 where
  unspecified active inactive pending_verification locked disabled : UserStatus
  deprovisioned archived : UserStatus
  unnamed : ℤ → UserStatus

pub data OrgUnitType : Type 0 where
  unspecified administration account revenue engineering education health : OrgUnitType
  agriculture planning social_development information_technology : OrgUnitType
  general_service other : OrgUnitType
  unnamed : ℤ → OrgUnitType

pub record PersonMessage : Type 0 where
  pub id : String
  pub legal_name : String
  pub preferred_name : String
  pub date_of_birth : String

pub record UserMessage : Type 0 where
  pub id : String
  pub username : String
  pub email : String
  pub full_name : String
  pub status : UserStatus
  pub person : Option PersonMessage
  pub created_at : Option Time

pub record OrgUnitMessage : Type 0 where
  pub id : String
  pub name : String
  pub code : String
  pub type : OrgUnitType

-- The constraints of a role by the one that is set, RequiresMfa.
pub record RoleMessage : Type 0 where
  pub id : String
  pub key : String
  pub name : String
  pub description : String
  pub requires_mfa : Bool

pub record PersonInput : Type 0 where
  pub legal_name : String
  pub preferred_name : String
  pub date_of_birth : String

pub record InviteUserInput : Type 0 where
  pub username : String
  pub email : String
  pub person : Option PersonInput

pub record ListUsersRequest : Type 0 where
  pub search : String
  pub limit : ℤ

pub record Users : Type 0 where
  pub users : List UserMessage
  pub total : ℤ

pub record Roles : Type 0 where
  pub roles : List RoleMessage
  pub total : ℤ
