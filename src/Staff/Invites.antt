-- ===== src/Staff/Invites.antt =====
-- Invites: apps/api/src/staff/invite-liveness.ts, the invite half of staff.repository.ts, and
-- `create`, `revoke` and `preview` of invites.service.ts. The hash of the token, a new uuid and whether
-- the mail went out are arguments.
use sambung.Common.{
  ℕ, String, Bool, true, false, not, ◌&&◌, Option, none, some, List, [], ◌∷◌, ◌++◌, map, ltb, leb,
  ◌==◌, str_eq, if◌then◌else◌, find, any, select, length,
}
use sambung.Db.Bookings.{update_where}
use sambung.Staff.Schema.{AppUser, StaffInvite, StaffDb, has_seat, is_none}

pub data InviteRefusalReason : Type 0 where
  accepted expired revoked : InviteRefusalReason

abbrev refusal_unaccepted : Option ℕ → Bool → Option InviteRefusalReason
refusal_unaccepted revoked_at true = some expired
refusal_unaccepted none false = none
refusal_unaccepted (some t) false = some revoked

abbrev refusal_of : Option ℕ → Option ℕ → Bool → Option InviteRefusalReason
refusal_of (some t) revoked_at late = some accepted
refusal_of none revoked_at late = refusal_unaccepted revoked_at late

unfoldable pub refusal_reason : StaffInvite → ℕ → Option InviteRefusalReason
refusal_reason i now = refusal_of i.accepted_at i.revoked_at (leb i.expires_at now)

pub data InviteAcceptMode : Type 0 where
  signin create : InviteAcceptMode

pub record AccountForInvite : Type 0 where
  pub id : ℕ
  pub password_hash : String
  pub seat_count : ℕ

unfoldable pub invite_accept_mode_for : Option AccountForInvite → InviteAcceptMode
invite_accept_mode_for none = create
invite_accept_mode_for (some a) = if ltb 0 a.seat_count then signin else create

abbrev pub is_open : StaffInvite → Bool
is_open i = is_none i.accepted_at && is_none i.revoked_at

-- `liveInviteFor`
unfoldable pub is_live : ℕ → StaffInvite → Bool
is_live now i = is_open i && ltb now i.expires_at

abbrev pub is_for : ℕ → String → StaffInvite → Bool
is_for tenant email i = i.tenant_id == tenant && str_eq i.email email

abbrev pub revoke_at : ℕ → StaffInvite → StaffInvite
revoke_at now i = record i { revoked_at = some now }

-- How many of the properties are the tenant's.
unfoldable pub count_visible_properties : ℕ → List ℕ → StaffDb → ℕ
count_visible_properties tenant ids db =
    length (select (λ p. p.tenant_id == tenant && any (λ k. k == p.id) ids) db.properties)

abbrev is_lapsed_invite : ℕ → ℕ → String → StaffInvite → Bool
is_lapsed_invite tenant now email i = is_for tenant email i && is_open i && leb i.expires_at now

unfoldable pub supersede_expired_invites : ℕ → ℕ → String → StaffDb → StaffDb
supersede_expired_invites tenant now email db = record db {
  invites = update_where (is_lapsed_invite tenant now email) (revoke_at now) db.invites;
}

unfoldable pub has_live_invite : ℕ → ℕ → String → StaffDb → Bool
unfolding is_live
has_live_invite tenant now email db = any (λ i. is_for tenant email i && is_live now i) db.invites

unfoldable pub is_member_of_tenant : String → ℕ → StaffDb → Bool
is_member_of_tenant email tenant db =
    any (λ u. str_eq u.email email && has_seat u.id tenant db.memberships) db.users

pub record NewInvite : Type 0 where
  pub id : ℕ
  pub token_hash : String
  pub expires_at : ℕ
  pub created_by : ℕ

-- Which constraint refuses the insert, if one does.
pub data InviteConstraint : Type 0 where
  staff_invite_pkey staff_invite_token_hash_key staff_invite_live_email_uniq : InviteConstraint
  staff_invite_created_by_tenant_fk : InviteConstraint

unfoldable pub invite_check : ℕ → String → NewInvite → StaffDb → Option InviteConstraint
invite_check tenant email new db =
    if any (λ i. i.id == new.id) db.invites
    then some staff_invite_pkey
    else if any (λ i. str_eq i.token_hash new.token_hash) db.invites
    then some staff_invite_token_hash_key
    else if any (λ i. is_for tenant email i && is_open i) db.invites
    then some staff_invite_live_email_uniq
    else if not (has_seat new.created_by tenant db.memberships)
    then some staff_invite_created_by_tenant_fk
    else none

abbrev pub invite_row : ℕ → String → NewInvite → StaffInvite
invite_row tenant email new = record {
  id = new.id;
  tenant_id = tenant;
  email = email;
  token_hash = new.token_hash;
  expires_at = new.expires_at;
  accepted_at = none;
  revoked_at = none;
  created_by = new.created_by;
}

-- The transaction of `createInvite` where no constraint refuses it: the properties were counted.
unfoldable pub create_invite : ℕ → String → List ℕ → NewInvite → StaffDb → StaffDb
create_invite tenant email ids new db = record db {
  invites = invite_row tenant email new ∷ db.invites;
  invite_properties =
      map (λ p. record { invite_id = new.id; property_id = p; tenant_id = tenant }) ids
      ++ db.invite_properties;
}

abbrev is_revocable : ℕ → ℕ → StaffInvite → Bool
is_revocable tenant id i = i.id == id && i.tenant_id == tenant && is_open i

-- Whether the tenant has the invite, open or not.
unfoldable pub revoke_invite : ℕ → ℕ → ℕ → StaffDb → Bool × StaffDb
revoke_invite tenant now id db = (
  any (λ i. i.id == id && i.tenant_id == tenant) db.invites,
  record db { invites = update_where (is_revocable tenant id) (revoke_at now) db.invites },
)

pub data StaffError : Type 0 where
  not_found forbidden unauthorized internal_server_error service_unavailable : StaffError
  email_taken invite_already_pending : StaffError
  invite_not_acceptable : InviteRefusalReason → StaffError

pub data StaffResult (A : Type 0) : Type 0 where
  ok : A → StaffResult A
  err : StaffError → StaffResult A

-- `[...new Set(ids)]`
abbrev add_new : List ℕ → ℕ → List ℕ
add_new seen x = if any (λ k. k == x) seen then seen else seen ++ x ∷ []

unfoldable pub distinct_from : List ℕ → List ℕ → List ℕ
distinct_from seen [] = seen
distinct_from seen (x ∷ xs) = distinct_from (add_new seen x) xs

-- `mapDbError` of a refused insert
abbrev pub insert_error : InviteConstraint → StaffError
insert_error staff_invite_live_email_uniq = invite_already_pending
insert_error _ = internal_server_error

-- The mail, and the revocation of an invite that nobody can use.
abbrev pub mailed : ℕ → ℕ → ℕ → Bool → StaffDb → StaffResult ℕ × StaffDb
mailed tenant now id true db = (ok id, db)
mailed tenant now id false db = (err service_unavailable, (revoke_invite tenant now id db).1)

abbrev pub inserted :
    ℕ
    → ℕ
    → String
    → List ℕ
    → NewInvite
    → Bool
    → StaffDb
    → Option InviteConstraint
    → StaffResult ℕ × StaffDb
inserted tenant now email ids new sent db (some c) = (err (insert_error c), db)
inserted tenant now email ids new sent db none =
    mailed tenant now new.id sent (create_invite tenant email ids new db)

-- After the stale invites are closed.
abbrev pub invited : ℕ → ℕ → String → List ℕ → NewInvite → Bool → StaffDb → StaffResult ℕ × StaffDb
invited tenant now email ids new sent db =
    if has_live_invite tenant now email db
    then (err invite_already_pending, db)
    else inserted tenant now email ids new sent db (invite_check tenant email new db)

-- `InvitesService.create`: the id of the invite, whose row the list of pending ones then shows.
unfoldable pub create_staff_invite :
    ℕ → ℕ → String → List ℕ → NewInvite → Bool → StaffDb → StaffResult ℕ × StaffDb
unfolding has_live_invite invite_check create_invite supersede_expired_invites
create_staff_invite tenant now email property_ids new sent db =
    let ids = distinct_from [] property_ids in
    if not (count_visible_properties tenant ids db == length ids)
    then (err not_found, db)
    else if is_member_of_tenant email tenant db
    then (err email_taken, db)
    else invited tenant now email ids new sent (supersede_expired_invites tenant now email db)

-- `InvitesService.revoke`
abbrev pub revoked_reply : Bool × StaffDb → StaffResult (Unit {0}) × StaffDb
revoked_reply (true, db) = (ok tt, db)
revoked_reply (false, db) = (err not_found, db)

unfoldable pub revoke : ℕ → ℕ → ℕ → StaffDb → StaffResult (Unit {0}) × StaffDb
unfolding revoke_invite
revoke tenant now id db = revoked_reply (revoke_invite tenant now id db)

unfoldable pub find_by_token_hash : String → StaffDb → Option StaffInvite
find_by_token_hash hash db = find (λ i. str_eq i.token_hash hash) db.invites

unfoldable pub seats : ℕ → StaffDb → ℕ
seats user db = length (select (λ m. m.app_user_id == user) db.memberships)

abbrev account_of : StaffDb → Option AppUser → Option AccountForInvite
account_of db none = none
account_of db (some u) =
    some (record { id = u.id; password_hash = u.password_hash; seat_count = seats u.id db })

unfoldable pub find_account_by_email : String → StaffDb → Option AccountForInvite
unfolding seats
find_account_by_email email db = account_of db (find (λ u. str_eq u.email email) db.users)

abbrev preview_live :
    StaffDb
    → StaffInvite
    → Option InviteRefusalReason
    → StaffResult (StaffInvite × InviteAcceptMode)
preview_live db i (some reason) = err (invite_not_acceptable reason)
preview_live db i none = ok (i, invite_accept_mode_for (find_account_by_email i.email db))

abbrev preview_found :
    ℕ → StaffDb → Option StaffInvite → StaffResult (StaffInvite × InviteAcceptMode)
preview_found now db none = err not_found
preview_found now db (some i) = preview_live db i (refusal_reason i now)

unfoldable pub preview : String → ℕ → StaffDb → StaffResult (StaffInvite × InviteAcceptMode)
unfolding refusal_reason find_by_token_hash find_account_by_email invite_accept_mode_for
preview hash now db = preview_found now db (find_by_token_hash hash db)
