-- ===== src/Staff/Keeps.antt =====
-- A condition that every write of apps/api/src/staff keeps is kept by every request.
use sambung.Common.{
  arith, ℕ, ◌≡◌, refl, String, Bool, true, false, not, Option, none, some, List, ◌==◌, length,
  Bool-cases, Option-cases, inl, inr, [], any, ltb, ◌&&◌,
}
use sambung.Staff.Schema.{StaffDb, AppUser}
use sambung.Staff.Invites.{
  count_visible_properties, distinct_from, is_member_of_tenant, supersede_expired_invites,
  NewInvite, InviteConstraint, invite_check, create_invite, revoke_invite, has_live_invite,
  inserted, mailed, invited, create_staff_invite, revoke, revoked_reply, find_by_token_hash,
  find_account_by_email, seats,
}
use sambung.Staff.Accept.{
  Spend, Claim, claimed, must_prove, taken, Spending, accepted, not_live, password_required,
  duplicate_account, accept, AcceptRequest, Reads, accept_reply, accept_invite, verify, is_id,
  resolve_account, create_account, reclaim_account,
}
use sambung.Staff.Team.{
  staff_exists, replace_assignments, update_assignments, remove_staff, remove, removed_reply,
}
use sambung.Staff.Run.{
  StaffStep, invitation, revocation, acceptance, reassignment, removal, StaffRun, start, next,
}

-- What is committed; a rolled-back transaction leaves what was there.
abbrev pub claimed_db : StaffDb → Claim → StaffDb
claimed_db db (claimed u after) = after
claimed_db db must_prove = db
claimed_db db taken = db

abbrev pub spending_db : StaffDb → Spending → StaffDb
spending_db db (accepted u t after) = after
spending_db db not_live = db
spending_db db password_required = db
spending_db db duplicate_account = db

-- The claim of an account writes the accounts only.
pub resolve_account-ignores :
    (Q : StaffDb → Type 0)
    → ((us : List AppUser) (d : StaffDb) → Q d → Q (record d { users = us }))
    → (s : Spend) (email : String) (db : StaffDb) (o : Option AppUser) → Q db
    → Q (claimed_db db (resolve_account s email db o))
unfolding resolve_account create_account reclaim_account
resolve_account-ignores Q users s email db none h =
    elim (Bool-cases (any (λ u. u.id == s.new_user_id) db.users)) [
      | inl y ↦ rw y h
      | inr n ↦ rw n (users _ db h)
    ]
resolve_account-ignores Q users s email db (some u) h =
    elim (Bool-cases (is_id s.verified_user_id u.id)) [
      | inl y ↦ rw y h
      | inr n ↦ elim (Bool-cases (ltb 0 (seats u.id db))) [
        | inl y ↦ rw (n, y) h
        | inr m ↦ rw (n, m) (users _ db h)
      ]
    ]

pub resolve_account-invites :
    (s : Spend) (email : String) (db : StaffDb) (o : Option AppUser)
    → (claimed_db db (resolve_account s email db o)).invites ≡ db.invites
resolve_account-invites s email db o =
    resolve_account-ignores (λ d. d.invites ≡ db.invites) (λ us d e. e) s email db o refl

-- `may tenant user`: the user may be taken out of the tenant's team.
pub record StaffWrites (may : ℕ → ℕ → Bool) (P : StaffDb → Type 0) : Type 0 where
  pub supersede :
      (tenant now : ℕ) (email : String) (db : StaffDb)
      → P db
      → P (supersede_expired_invites tenant now email db)
  pub insert :
      (tenant : ℕ) (email : String) (ids : List ℕ) (new : NewInvite) (db : StaffDb)
      → invite_check tenant email new db ≡ none
      → P db
      → P (create_invite tenant email ids new db)
  pub close : (tenant now id : ℕ) (db : StaffDb) → P db → P (revoke_invite tenant now id db).1
  pub spend : (now : ℕ) (s : Spend) (db : StaffDb) → P db → P (spending_db db (accept now s db))
  pub replace :
      (tenant user : ℕ) (ids : List ℕ) (db : StaffDb)
      → staff_exists tenant user db ≡ true
      → P db
      → P (replace_assignments tenant user ids db)
  pub unseat :
      (tenant user : ℕ) (db : StaffDb)
      → may tenant user ≡ true
      → P db
      → P (remove_staff tenant user db).1

-- The removals of a run are among those that may be.
abbrev pub step_spares : (ℕ → ℕ → Bool) → {db after : StaffDb} → StaffStep db after → Bool
step_spares may (invitation tenant now email ids new sent) = true
step_spares may (revocation tenant now id) = true
step_spares may (acceptance compare req reads now) = true
step_spares may (reassignment tenant user ids) = true
step_spares may (removal principal tenant user) = may tenant user

unfoldable pub spares : (ℕ → ℕ → Bool) → {db after : StaffDb} → StaffRun db after → Bool
spares may start = true
spares may (next run step) = spares may run && step_spares may step

abbrev pub anyone : ℕ → ℕ → Bool
anyone tenant user = true

step_spares-anyone :
    {db after : StaffDb} (step : StaffStep db after) → step_spares anyone step ≡ true
step_spares-anyone (invitation tenant now email ids new sent) = refl
step_spares-anyone (revocation tenant now id) = refl
step_spares-anyone (acceptance compare req reads now) = refl
step_spares-anyone (reassignment tenant user ids) = refl
step_spares-anyone (removal principal tenant user) = refl

pub spares-anyone : {db after : StaffDb} (run : StaffRun db after) → spares anyone run ≡ true
unfolding spares
spares-anyone start = refl
spares-anyone (next run step) = rw (spares-anyone run, step_spares-anyone step) refl

reply-db :
    (reads : Reads) (token : String) (db : StaffDb) (r : Spending)
    → (accept_reply reads token db r).1 ≡ spending_db db r
reply-db reads token db (accepted u t after) = refl
reply-db reads token db not_live = refl
reply-db reads token db password_required = refl
reply-db reads token db duplicate_account = refl

revoked-db : (r : Bool × StaffDb) → (revoked_reply r).1 ≡ r.1
revoked-db (true, db) = refl
revoked-db (false, db) = refl

removed-db : (r : Bool × StaffDb) → (removed_reply r).1 ≡ r.1
removed-db (true, db) = refl
removed-db (false, db) = refl

module _ (P : StaffDb → Type 0) where
  -- A request to accept leaves the tables alone or runs the transaction once.
  pub accept_invite-cases :
      (compare : String → String → Bool) (req : AcceptRequest) (reads : Reads) (now : ℕ)
      (db : StaffDb)
      → P db
      → ((s : Spend) → P (spending_db db (accept now s db)))
      → P (accept_invite compare req reads now db).1
  unfolding accept_invite
  accept_invite-cases compare req reads now db h step =
      elim (Option-cases (find_by_token_hash req.token_hash reads.invite)) [
        | inl n ↦ rw n h
        | inr (i, e) ↦
            elim (Option-cases
              (verify compare req.password (find_account_by_email i.email reads.account))) [
                | inl n ↦ rw (e, n) h
                | inr (v, f) ↦
                    rw (e, f, reply-db reads req.token_hash db (accept now _ db)) (step _)
              ]
      ]

module _ {may : ℕ → ℕ → Bool} {P : StaffDb → Type 0} (w : StaffWrites may P) where
  module _ (tenant now : ℕ) (email : String) (new : NewInvite) where
    mailed-keeps : (sent : Bool) (db : StaffDb) → P db → P (mailed tenant now new.id sent db).1
    mailed-keeps true db h = h
    mailed-keeps false db h = w.close tenant now new.id db h

    inserted-keeps :
        (ids : List ℕ) (sent : Bool) (db : StaffDb) (o : Option InviteConstraint)
        → invite_check tenant email new db ≡ o
        → P db
        → P (inserted tenant now email ids new sent db o).1
    inserted-keeps ids sent db (some c) e h = h
    inserted-keeps ids sent db none e h = mailed-keeps sent _ (w.insert tenant email ids new db e h)

    invited-keeps :
        (ids : List ℕ) (sent : Bool) (db : StaffDb)
        → P db
        → P (invited tenant now email ids new sent db).1
    invited-keeps ids sent db h = elim (Bool-cases (has_live_invite tenant now email db)) [
      | inl y ↦ rw y h
      | inr n ↦ rw n (inserted-keeps ids sent db _ refl h)
    ]

    create_staff_invite-keeps :
        (ids : List ℕ) (sent : Bool) (db : StaffDb)
        → P db
        → P (create_staff_invite tenant now email ids new sent db).1
    unfolding create_staff_invite
    create_staff_invite-keeps ids sent db h =
        let distinct = distinct_from [] ids in
        elim (Bool-cases (not (count_visible_properties tenant distinct db == length distinct))) [
          | inl y ↦ rw y h
          | inr n ↦ elim (Bool-cases (is_member_of_tenant email tenant db)) [
            | inl y ↦ rw (n, y) h
            | inr m ↦ rw (n, m) (invited-keeps distinct sent _ (w.supersede tenant now email db h))
          ]
        ]

  revoke-keeps : (tenant now id : ℕ) (db : StaffDb) → P db → P (revoke tenant now id db).1
  unfolding revoke
  revoke-keeps tenant now id db h =
      rw (revoked-db (revoke_invite tenant now id db)) (w.close tenant now id db h)

  update_assignments-keeps :
      (tenant user : ℕ) (ids : List ℕ) (db : StaffDb)
      → P db
      → P (update_assignments tenant user ids db).1
  unfolding update_assignments
  update_assignments-keeps tenant user ids db h =
      let distinct = distinct_from [] ids in
      elim (Bool-cases (staff_exists tenant user db)) [
        | inr n ↦ rw n h
        | inl y ↦
            elim (Bool-cases (count_visible_properties tenant distinct db == length distinct)) [
              | inr n ↦ rw (y, n) h
              | inl m ↦ rw (y, m) (w.replace tenant user distinct db y h)
            ]
      ]

  remove-keeps :
      (principal tenant user : ℕ) (db : StaffDb)
      → may tenant user ≡ true
      → P db
      → P (remove principal tenant user db).1
  unfolding remove
  remove-keeps principal tenant user db m h = elim (Bool-cases (principal == user)) [
    | inl y ↦ rw y h
    | inr n ↦ rw (n, removed-db (remove_staff tenant user db)) (w.unseat tenant user db m h)
  ]

  pub StaffStep-keeps :
      {db after : StaffDb} (step : StaffStep db after)
      → step_spares may step ≡ true
      → P db
      → P after
  StaffStep-keeps {db} (invitation tenant now email ids new sent) m h =
      create_staff_invite-keeps tenant now email new ids sent db h
  StaffStep-keeps {db} (revocation tenant now id) m h = revoke-keeps tenant now id db h
  StaffStep-keeps {db} (acceptance compare req reads now) m h =
      accept_invite-cases P compare req reads now db h (λ s. w.spend now s db h)
  StaffStep-keeps {db} (reassignment tenant user ids) m h =
      update_assignments-keeps tenant user ids db h
  StaffStep-keeps {db} (removal principal tenant user) m h =
      remove-keeps principal tenant user db m h

  pub StaffRun-keeps :
      {db after : StaffDb} (run : StaffRun db after) → spares may run ≡ true → P db → P after
  unfolding spares
  StaffRun-keeps start m h = h
  StaffRun-keeps (next run step) m h =
      StaffStep-keeps step (ground arith) (StaffRun-keeps run (ground arith) h)
