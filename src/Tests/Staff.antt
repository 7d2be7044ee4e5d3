-- ===== src/Tests/Staff.antt =====
-- A villa with its owner, and an invite for somebody who already works at another villa.
use sambung.Staff.Keeps.{spares}
use sambung.Common.{
  ℕ, ◌≤◌, ◌≡◌, ◌↔◌, refl, String, Bool, true, false, ◌&&◌, none, some, [], ◌∷◌, select, length, any,
  str_eq, arith, ◌==◌,
}
use sambung.Staff.Schema.{UserRole, StaffInvite, StaffDb}
use sambung.Staff.Invites.{
  StaffResult, ok, err, NewInvite, create_staff_invite, seats, is_live, is_for, is_open,
  refusal_reason, preview, signin, invite_already_pending, service_unavailable, InviteRefusalReason,
  not_found, forbidden, unauthorized, invite_not_acceptable,
}
use sambung.Staff.Accept.{AcceptRequest, Reads, Spend, not_live, accept, accept_invite}
use sambung.Staff.Team.{update_assignments, remove}
use sambung.Staff.Run.{StaffRun, start, next, acceptance, removal}
use sambung.Staff.Passwords.{has_login, accept_invite-keeps}
use sambung.Staff.Proved.{opens, accept_invite-opens}
use sambung.Staff.Lifecycle.{invite_by_id, InviteMove, StaffRun-InviteMove}
use sambung.Staff.OneOpen.{StaffRun-open}
use sambung.Staff.Once.{refusal_reason_iff, accept-once}
use sambung.Staff.Seats.{HasSeats}
use sambung.Staff.Seated.{StaffRun-HasSeats}

abbrev invite : StaffInvite
invite = record {
  id = 50;
  tenant_id = 7;
  email = "putu@villa.example";
  token_hash = "t50";
  expires_at = 5000;
  accepted_at = none;
  revoked_at = none;
  created_by = 1;
}

abbrev staff_tables : StaffDb
staff_tables = record {
  users =
      record { id = 1; email = "made@villa.example"; password_hash = "made" }
      ∷ record { id = 2; email = "putu@villa.example"; password_hash = "putu" }
      ∷ [];
  memberships =
      record { app_user_id = 1; tenant_id = 7; role = UserRole.owner }
      ∷ record { app_user_id = 2; tenant_id = 8; role = UserRole.staff }
      ∷ [];
  properties = record { id = 30; tenant_id = 7 } ∷ record { id = 31; tenant_id = 8 } ∷ [];
  invites = invite ∷ [];
  invite_properties = record { invite_id = 50; property_id = 30; tenant_id = 7 } ∷ [];
  user_properties = record { app_user_id = 2; property_id = 31; tenant_id = 8 } ∷ [];
}

abbrev reads : Reads
reads = record {
  invite = staff_tables;
  account = staff_tables;
  again = staff_tables;
  again_now = 1000;
}

abbrev request : String → AcceptRequest
request password = record {
  token_hash = "t50";
  password = password;
  password_hash = "hash";
  new_user_id = 3;
  stamp = 1000;
}

abbrev joined : StaffDb
joined = (accept_invite str_eq (request "putu") reads 1000 staff_tables).1

accepted_test :
    (any (λ m. m.app_user_id == 2 && m.tenant_id == 7) joined.memberships ≡ true)
    × (length joined.user_properties ≡ 2)
    × ((accept_invite str_eq (request "made") reads 1000 staff_tables).0 ≡ err unauthorized)
unfolding accept_invite sambung.Staff.Accept.spent sambung.Staff.Accept.grant
accepted_test = (refl, refl, refl)

mode_test : preview "t50" 1000 staff_tables ≡ ok (invite, signin)
unfolding preview
mode_test = refl

lapsed_test :
    preview "t50" 5000 staff_tables ≡ err (invite_not_acceptable InviteRefusalReason.expired)
unfolding preview
lapsed_test = refl

abbrev new : NewInvite
new = record { id = 51; token_hash = "t51"; expires_at = 9000; created_by = 1 }

abbrev re_invited : ℕ → Bool → StaffResult ℕ × StaffDb
re_invited now sent =
    create_staff_invite 7 now "putu@villa.example" (30 ∷ 30 ∷ []) new sent staff_tables

-- A pending invite stands in the way, a lapsed one does not, and one that was never mailed is closed.
invite_test :
    ((re_invited 1000 true).0 ≡ err invite_already_pending)
    × ((re_invited 6000 true).0 ≡ ok 51)
    × ((re_invited 6000 false).0 ≡ err service_unavailable)
    × (any (λ i. is_open i) (re_invited 6000 false).1.invites ≡ false)
unfolding create_staff_invite sambung.Staff.Invites.count_visible_properties
    sambung.Staff.Invites.distinct_from sambung.Staff.Invites.is_member_of_tenant
    sambung.Staff.Invites.revoke_invite
invite_test = (refl, refl, refl, refl)

removed_test :
    ((remove 1 7 2 joined).1.user_properties ≡ staff_tables.user_properties)
    × ((remove 1 7 1 joined).0 ≡ err forbidden)
    × ((remove 2 7 1 joined).0 ≡ err not_found)
    × ((update_assignments 7 2 (31 ∷ []) joined).0 ≡ err not_found)
unfolding remove update_assignments accept_invite sambung.Staff.Accept.spent
    sambung.Staff.Accept.grant
removed_test = (refl, refl, refl, refl)

run : StaffRun staff_tables (remove 1 7 2 joined).1
run = next (next start (acceptance str_eq (request "putu") reads 1000)) (removal 1 7 2)

staff_tables-HasSeats : HasSeats staff_tables
staff_tables-HasSeats = record { seated = (refl, tt); scoped = (refl, tt) }

accept_invite-keeps_example :
    has_login 2 "putu" (accept_invite str_eq (request "made") reads 1000 staff_tables).1 ≡ true
unfolding has_login seats
accept_invite-keeps_example =
    accept_invite-keeps 2 "putu" str_eq (request "made") reads 1000 staff_tables (omega arith) refl

accept_invite-opens_example : opens str_eq "putu" 2 staff_tables ≡ true
unfolding accept_invite seats sambung.Staff.Accept.spent
accept_invite-opens_example =
    accept_invite-opens str_eq (request "putu") reads 1000 staff_tables refl refl (omega arith)

-- The invite that was accepted stays so, though its guest leaves the team again.
StaffRun-InviteMove_example :
    (j : StaffInvite) × (invite_by_id 50 (remove 1 7 2 joined).1.invites ≡ some j)
    × InviteMove invite j
unfolding spares run
StaffRun-InviteMove_example = StaffRun-InviteMove 50 invite run refl refl

StaffRun-open_example :
    length
      (select (λ i. is_for 7 "putu@villa.example" i && is_open i) (remove 1 7 2 joined).1.invites)
    ≤ 1
StaffRun-open_example = StaffRun-open 7 "putu@villa.example" (refl, tt) run

StaffRun-HasSeats_example : HasSeats (remove 1 7 2 joined).1
StaffRun-HasSeats_example = StaffRun-HasSeats staff_tables-HasSeats run

refusal_reason_iff_example : (refusal_reason invite 1000 ≡ none) ↔ (is_live 1000 invite ≡ true)
refusal_reason_iff_example = refusal_reason_iff invite 1000

abbrev spend : Spend
spend = record {
  invite_id = 50;
  password_hash = "hash";
  verified_user_id = some 2;
  new_user_id = 3;
  stamp = 1000;
}

accept-once_example : accept 2000 spend joined ≡ not_live
unfolding accept accept_invite sambung.Staff.Accept.spent
accept-once_example = accept-once 1000 2000 spend spend staff_tables (omega arith) refl refl
