-- ===== src/Staff/Run.antt =====
-- Any sequence of the writes of apps/api/src/staff, by any owners and invitees.
use sambung.Common.{ℕ, String, Bool, List}
use sambung.Staff.Schema.{StaffDb}
use sambung.Staff.Invites.{NewInvite, create_staff_invite, revoke}
use sambung.Staff.Accept.{AcceptRequest, Reads, accept_invite}
use sambung.Staff.Team.{update_assignments, remove}

pub data StaffStep : StaffDb → StaffDb → Type 0 where
  invitation :
      {db : StaffDb} (tenant now : ℕ) (email : String) (ids : List ℕ) (new : NewInvite)
      (sent : Bool)
      → StaffStep db (create_staff_invite tenant now email ids new sent db).1
  revocation : {db : StaffDb} (tenant now id : ℕ) → StaffStep db (revoke tenant now id db).1
  acceptance :
      {db : StaffDb} (compare : String → String → Bool) (req : AcceptRequest) (reads : Reads)
      (now : ℕ)
      → StaffStep db (accept_invite compare req reads now db).1
  reassignment :
      {db : StaffDb} (tenant user : ℕ) (ids : List ℕ)
      → StaffStep db (update_assignments tenant user ids db).1
  removal :
      {db : StaffDb} (principal tenant user : ℕ) → StaffStep db (remove principal tenant user db).1

pub data StaffRun (db : StaffDb) : StaffDb → Type 0 where
  start : StaffRun db db
  next : {mid after : StaffDb} → StaffRun db mid → StaffStep mid after → StaffRun db after
