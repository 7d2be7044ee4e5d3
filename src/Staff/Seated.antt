-- ===== src/Staff/Seated.antt =====
-- Every request of apps/api/src/staff keeps what the composite foreign keys ask for.
use sambung.Common.{
  ℕ, ◌≡◌, refl, String, true, not, Option, none, some, List, ◌==◌, str_eq, select, All, find,
  Bool-cases, inl, inr,
}
use sambung.Db.Bookings.{update_where}
use sambung.Staff.Schema.{AppUser, StaffInvite, StaffDb}
use sambung.Staff.Invites.{
  supersede_expired_invites, NewInvite, invite_row, invite_check, create_invite, revoke_invite,
  revoke_at,
}
use sambung.Staff.Accept.{
  Spend, Claim, claimed, must_prove, taken, resolve_account, is_spendable, spend_at, granted, grant,
  spent, accept,
}
use sambung.Staff.Team.{
  staff_exists, replace_assignments, remove_staff, cascade_membership, is_invite_by,
}
use sambung.Staff.Run.{StaffRun}
use sambung.Staff.Keeps.{
  claimed_db, spending_db, StaffWrites, StaffRun-keeps, resolve_account-ignores, anyone,
  spares-anyone,
}
use sambung.Staff.OneOpen.{invite_check-none}
use sambung.Staff.Seats.{
  HasSeats, update-AreScoped, old-AreScoped, new-AreScoped, select-AreScoped, more_seats, new_seat,
  add_assignments-AreSeated, other_seats, replaced-AreSeated, staff_exists-seat, grants-tenant,
  All-imp,
}

-- The tables, and that the invite grants what is its tenant's.
record Grantable (i : StaffInvite) (db : StaffDb) : Type 0 where
  seats_kept : HasSeats db
  own :
      All (λ p. p.tenant_id ≡ i.tenant_id) (select (λ p. p.invite_id == i.id) db.invite_properties)

grant-HasSeats :
    (i : StaffInvite) (u : AppUser) (db : StaffDb) → Grantable i db → HasSeats (grant i u db)
unfolding grant
grant-HasSeats i u db g = record {
  seated =
      add_assignments-AreSeated u.id i.tenant_id _ _ db.user_properties
        (new_seat u.id i.tenant_id db.memberships) g.own
        (All-imp _ _ (λ a e. more_seats u.id i.tenant_id a.app_user_id a.tenant_id db.memberships e)
          db.user_properties g.seats_kept.seated);
  scoped = g.seats_kept.scoped;
}

granted-HasSeats :
    (i : StaffInvite) (db mid : StaffDb) (c : Claim)
    → HasSeats db
    → Grantable i (claimed_db mid c)
    → HasSeats (spending_db db (granted i c))
granted-HasSeats i db mid (claimed u after) h g = grant-HasSeats i u after g
granted-HasSeats i db mid must_prove h g = h
granted-HasSeats i db mid taken h g = h

spent-HasSeats :
    (now : ℕ) (s : Spend) (db : StaffDb) (o : Option StaffInvite)
    → find (is_spendable now s.invite_id) db.invites ≡ o
    → HasSeats db
    → HasSeats (spending_db db (spent now s db o))
unfolding spent
spent-HasSeats now s db none found h = h
spent-HasSeats now s db (some i) found h =
    let mid : StaffDb = record db {
      invites = update_where (is_spendable now s.invite_id) (spend_at s.stamp) db.invites;
    } in
    let account = find (λ u. str_eq u.email i.email) db.users in
    let marked : HasSeats mid = record {
      seated = h.seated;
      scoped =
          update-AreScoped (is_spendable now s.invite_id) (spend_at s.stamp) (λ j. refl) (λ j. refl)
            db.invites db.invite_properties h.scoped;
    } in
    granted-HasSeats i db mid (resolve_account s i.email mid account) h (
      resolve_account-ignores (Grantable i)
        (λ us d g. record {
          seats_kept = record { seated = g.seats_kept.seated; scoped = g.seats_kept.scoped };
          own = g.own;
        })
        s i.email mid account
        (record {
          seats_kept = marked;
          own =
              grants-tenant i (is_spendable now s.invite_id) db.invites db.invite_properties found
                h.scoped;
        }))

insert-HasSeats :
    (tenant : ℕ) (email : String) (ids : List ℕ) (new : NewInvite) (db : StaffDb)
    → invite_check tenant email new db ≡ none
    → HasSeats db
    → HasSeats (create_invite tenant email ids new db)
unfolding create_invite
insert-HasSeats tenant email ids new db e h =
    let i = invite_row tenant email new in
    let fresh = (invite_check-none tenant email new db e).0 in
    record {
      seated = h.seated;
      scoped =
          new-AreScoped i db.invites ids db.invite_properties fresh
            (old-AreScoped i db.invites db.invite_properties fresh h.scoped);
    }

replace-HasSeats :
    (tenant user : ℕ) (ids : List ℕ) (db : StaffDb)
    → staff_exists tenant user db ≡ true
    → HasSeats db
    → HasSeats (replace_assignments tenant user ids db)
unfolding replace_assignments staff_exists
replace-HasSeats tenant user ids db exists h = record {
  seated =
      replaced-AreSeated user tenant ids db.memberships db.user_properties
        (staff_exists-seat tenant user db.memberships exists) h.seated;
  scoped = h.scoped;
}

remove_staff-HasSeats :
    (tenant user : ℕ) (db : StaffDb) → HasSeats db → HasSeats (remove_staff tenant user db).1
unfolding remove_staff cascade_membership
remove_staff-HasSeats tenant user db h = elim (Bool-cases (staff_exists tenant user db)) [
  | inr n ↦ rw n h
  | inl y ↦ rw y (record {
    seated = other_seats user tenant db.memberships db.user_properties h.seated;
    scoped =
        select-AreScoped (λ i. not (is_invite_by user tenant i)) db.invites db.invite_properties
          h.scoped;
  })
]

HasSeats-StaffWrites : StaffWrites anyone HasSeats
unfolding accept supersede_expired_invites revoke_invite
HasSeats-StaffWrites = record {
  supersede = λ tenant now email db h. record {
    seated = h.seated;
    scoped =
        update-AreScoped _ (revoke_at now) (λ j. refl) (λ j. refl) db.invites db.invite_properties
          h.scoped;
  };
  insert = insert-HasSeats;
  close = λ tenant now id db h. record {
    seated = h.seated;
    scoped =
        update-AreScoped _ (revoke_at now) (λ j. refl) (λ j. refl) db.invites db.invite_properties
          h.scoped;
  };
  spend = λ now s db h. spent-HasSeats now s db _ refl h;
  replace = replace-HasSeats;
  unseat = λ tenant user db m h. remove_staff-HasSeats tenant user db h;
}

-- Any sequence of requests of the team's pages keeps this: every assignment is of a user who has a
-- seat in its tenant, and every property that an invite grants is of an invite that is there and
-- of its tenant.
pub StaffRun-HasSeats : {db after : StaffDb} → HasSeats db → StaffRun db after → HasSeats after
StaffRun-HasSeats h run = StaffRun-keeps HasSeats-StaffWrites run (spares-anyone run) h
