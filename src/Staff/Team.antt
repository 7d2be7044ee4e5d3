-- ===== src/Staff/Team.antt =====
-- The team: apps/api/src/staff/staff.service.ts and its half of staff.repository.ts, with the rows that
-- the foreign keys of packages/db/src/schema.ts take along when a seat is deleted.
use sambung.Common.{
  [], ℕ, Bool, true, false, not, ◌&&◌, List, ◌++◌, map, ◌==◌, if◌then◌else◌, any, select, length,
}
use sambung.Staff.Schema.{
  Membership, StaffInvite, UserProperty, StaffInviteProperty, StaffDb, is_seat, is_staff,
}
use sambung.Staff.Invites.{
  count_visible_properties, distinct_from, StaffResult, ok, err, not_found, forbidden,
}

abbrev pub is_staff_seat : ℕ → ℕ → Membership → Bool
is_staff_seat user tenant m = is_seat user tenant m && is_staff m.role

unfoldable pub staff_exists : ℕ → ℕ → StaffDb → Bool
staff_exists tenant user db = any (is_staff_seat user tenant) db.memberships

abbrev pub is_assignment_of : ℕ → ℕ → UserProperty → Bool
is_assignment_of user tenant a = a.app_user_id == user && a.tenant_id == tenant

unfoldable pub replace_assignments : ℕ → ℕ → List ℕ → StaffDb → StaffDb
replace_assignments tenant user ids db = record db {
  user_properties =
      map (λ p. record { app_user_id = user; property_id = p; tenant_id = tenant }) ids
      ++ select (λ a. not (is_assignment_of user tenant a)) db.user_properties;
}

-- `StaffService.updateAssignments`: the user, whose row the list of staff then shows.
unfoldable pub update_assignments : ℕ → ℕ → List ℕ → StaffDb → StaffResult ℕ × StaffDb
unfolding staff_exists replace_assignments count_visible_properties distinct_from
update_assignments tenant user property_ids db =
    let ids = distinct_from [] property_ids in
    if not (staff_exists tenant user db)
    then (err not_found, db)
    else if not (count_visible_properties tenant ids db == length ids)
    then (err not_found, db)
    else (ok user, replace_assignments tenant user ids db)

abbrev pub is_invite_by : ℕ → ℕ → StaffInvite → Bool
is_invite_by user tenant i = i.created_by == user && i.tenant_id == tenant

abbrev pub grants_for : StaffInviteProperty → StaffInvite → Bool
grants_for p i = i.id == p.invite_id && i.tenant_id == p.tenant_id

-- `onDelete: cascade`: the assignments of the seat, and the invites that it sent with what they grant.
unfoldable pub cascade_membership : ℕ → ℕ → StaffDb → StaffDb
cascade_membership user tenant db =
    let kept = select (λ i. not (is_invite_by user tenant i)) db.invites in
    record db {
      user_properties = select (λ a. not (is_assignment_of user tenant a)) db.user_properties;
      invites = kept;
      invite_properties = select (λ p. any (grants_for p) kept) db.invite_properties;
    }

abbrev delete_seat : ℕ → ℕ → StaffDb → StaffDb
delete_seat user tenant db = record db {
  memberships = select (λ m. not (is_staff_seat user tenant m)) db.memberships;
}

unfoldable pub remove_staff : ℕ → ℕ → StaffDb → Bool × StaffDb
unfolding staff_exists cascade_membership
remove_staff tenant user db =
    if staff_exists tenant user db
    then (true, cascade_membership user tenant (delete_seat user tenant db))
    else (false, db)

abbrev pub removed_reply : Bool × StaffDb → StaffResult (Unit {0}) × StaffDb
removed_reply (true, db) = (ok tt, db)
removed_reply (false, db) = (err not_found, db)

-- `StaffService.remove`, by the user `principal`.
unfoldable pub remove : ℕ → ℕ → ℕ → StaffDb → StaffResult (Unit {0}) × StaffDb
unfolding remove_staff
remove principal tenant user db =
    if principal == user then (err forbidden, db) else removed_reply (remove_staff tenant user db)
