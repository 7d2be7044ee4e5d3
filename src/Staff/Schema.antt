-- ===== src/Staff/Schema.antt =====
-- The tables of packages/db/src/schema.ts that apps/api/src/staff writes. An e-mail address stands in
-- the case that citext compares it in.
use sambung.Common.{false, some, true, ℕ, String, Bool, ◌&&◌, Option, List, any, ◌==◌, none}

pub data UserRole : Type 0 where
  owner staff : UserRole

pub record AppUser : Type 0 where
  pub id : ℕ
  pub email : String
  pub password_hash : String

pub record Membership : Type 0 where
  pub app_user_id : ℕ
  pub tenant_id : ℕ
  pub role : UserRole

pub record OwnedProperty : Type 0 where
  pub id : ℕ
  pub tenant_id : ℕ

pub record StaffInvite : Type 0 where
  pub id : ℕ
  pub tenant_id : ℕ
  pub email : String
  pub token_hash : String
  pub expires_at : ℕ
  pub accepted_at : Option ℕ
  pub revoked_at : Option ℕ
  pub created_by : ℕ

pub record StaffInviteProperty : Type 0 where
  pub invite_id : ℕ
  pub property_id : ℕ
  pub tenant_id : ℕ

pub record UserProperty : Type 0 where
  pub app_user_id : ℕ
  pub property_id : ℕ
  pub tenant_id : ℕ

pub record StaffDb : Type 0 where
  pub users : List AppUser
  pub memberships : List Membership
  pub properties : List OwnedProperty
  pub invites : List StaffInvite
  pub invite_properties : List StaffInviteProperty
  pub user_properties : List UserProperty

-- The primary key of `membership`.
abbrev pub is_seat : ℕ → ℕ → Membership → Bool
is_seat user tenant m = m.app_user_id == user && m.tenant_id == tenant

abbrev pub has_seat : ℕ → ℕ → List Membership → Bool
has_seat user tenant ms = any (is_seat user tenant) ms

abbrev pub is_staff : UserRole → Bool
is_staff staff = true
is_staff owner = false

abbrev pub is_none {ℓ} : {A : Type ℓ} → Option A → Bool
is_none none = true
is_none (some a) = false
