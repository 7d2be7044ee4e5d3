-- ===== src/Staff/Lifecycle.antt =====
-- The life of an invite: open, then accepted or revoked, and then for good.
use sambung.Common.{
  ℕ, ◌≡◌, refl, sym, ap, ◌∙◌, subst, Bool, true, false, not, Option, none, some, List, [], ◌∷◌,
  select, find, find-map, find_sound, any, any-find, ◌==◌, str_eq, if◌then◌else◌, Bool-cases, inl,
  inr, arith, some_inj, option_map, ◌⊎◌,
}
use sambung.Db.Bookings.{update_where}
use sambung.Staff.Schema.{StaffInvite, StaffDb}
use sambung.Staff.Invites.{
  is_open, is_live, revoke_at, supersede_expired_invites, create_invite, revoke_invite,
}
use sambung.Staff.Accept.{
  Spend, Claim, claimed, must_prove, taken, spend_at, granted, grant, spent, accept,
  resolve_account, is_spendable,
}
use sambung.Staff.Team.{
  remove_staff, cascade_membership, is_invite_by, staff_exists, replace_assignments,
}
use sambung.Staff.Run.{StaffRun}
use sambung.Staff.Keeps.{
  claimed_db, spending_db, StaffWrites, StaffRun-keeps, spares, resolve_account-invites,
}
use sambung.Staff.OneOpen.{invite_check-none}

-- One row, before and after.
pub data InviteMove (i : StaffInvite) : StaffInvite → Type 0 where
  kept : InviteMove i i
  accepts : (now : ℕ) → is_open i ≡ true → InviteMove i (spend_at now i)
  revokes : (now : ℕ) → is_open i ≡ true → InviteMove i (revoke_at now i)

revoke_at-closed : (now : ℕ) (i : StaffInvite) → is_open (revoke_at now i) ≡ true → false ≡ true
revoke_at-closed now i e = ground arith

InviteMove-trans : {i j k : StaffInvite} → InviteMove i j → InviteMove j k → InviteMove i k
InviteMove-trans m kept = m
InviteMove-trans kept m = m
InviteMove-trans (accepts now e) (accepts later f) = cc
InviteMove-trans (accepts now e) (revokes later f) = cc
InviteMove-trans {i} (revokes now e) (accepts later f) = (let c = revoke_at-closed now i f in cc)
InviteMove-trans {i} (revokes now e) (revokes later f) = (let c = revoke_at-closed now i f in cc)

InviteMove-sender :
    (user tenant : ℕ) {i j : StaffInvite}
    → InviteMove i j
    → is_invite_by user tenant j ≡ is_invite_by user tenant i
InviteMove-sender user tenant kept = refl
InviteMove-sender user tenant (accepts now e) = refl
InviteMove-sender user tenant (revokes now e) = refl

-- `staff_invite` by its primary key.
abbrev pub invite_by_id : ℕ → List StaffInvite → Option StaffInvite
invite_by_id id is = find (λ k. k.id == id) is

-- The removals that leave the sender of the invite where it is.
abbrev pub not_sender : StaffInvite → ℕ → ℕ → Bool
not_sender i tenant user = not (is_invite_by user tenant i)

find-select :
    (p q : StaffInvite → Bool) (is : List StaffInvite) {j : StaffInvite}
    → find p is ≡ some j
    → q j ≡ true
    → find p (select q is) ≡ some j
find-select p q [] e h = e
find-select p q (k ∷ is) {j} e h = elim (Bool-cases (p k)) [
  | inl y ↦
      let same : k ≡ j = some_inj.0 (rw y at e) in
      let stays : q k ≡ true = subst (λ z. q z ≡ true) (sym same) h in rw (stays, y) (rw y at e)
  | inr n ↦ elim (Bool-cases (q k)) [
    | inl y ↦ rw (y, n) (find-select p q is (rw n at e) h)
    | inr m ↦ rw m (find-select p q is (rw n at e) h)
  ]
]

is_live-open : (now : ℕ) (i : StaffInvite) → is_live now i ≡ true → is_open i ≡ true
unfolding is_live
is_live-open now i e = ground arith

module _ (id : ℕ) (i : StaffInvite) where
  -- The invite of this id has come from `i`.
  Lives : List StaffInvite → Type 0
  Lives is = (j : StaffInvite) × (invite_by_id id is ≡ some j) × InviteMove i j

  update-Lives :
      (p : StaffInvite → Bool) (f : StaffInvite → StaffInvite)
      → ((j : StaffInvite) → (f j).id ≡ j.id)
      → ((j : StaffInvite) → p j ≡ true → InviteMove j (f j))
      → (is : List StaffInvite) → Lives is
      → Lives (update_where p f is)
  unfolding Lives
  update-Lives p f ids move is (j, found, m) = (
    if p j then f j else j,
    find-map (λ k. k.id == id) (λ k. if p k then f k else k) (λ k. same_id k (Bool-cases (p k))) is
        ∙ ap (λ o. option_map (λ k. if p k then f k else k) o) found,
    InviteMove-trans m (moves (Bool-cases (p j))),
  )
    where
      same_id :
          (k : StaffInvite)
          → (p k ≡ true) ⊎ (p k ≡ false)
          → ((if p k then f k else k).id == id) ≡ (k.id == id)
      same_id k (inl y) = rw (y, ids k) refl
      same_id k (inr n) = rw n refl

      moves : (p j ≡ true) ⊎ (p j ≡ false) → InviteMove j (if p j then f j else j)
      moves (inl y) = rw y (move j y)
      moves (inr n) = rw n kept

  insert-Lives :
      (k : StaffInvite) (is : List StaffInvite)
      → any (λ j. j.id == k.id) is ≡ false
      → Lives is
      → Lives (k ∷ is)
  unfolding Lives
  insert-Lives k is fresh (j, found, m) = elim (Bool-cases (k.id == id)) [
    | inr n ↦ (j, rw n found, m)
    | inl y ↦
        (let here : (j.id == id) ≡ true = find_sound (λ k. k.id == id) is found in
          let known : any (λ j. j.id == k.id) is ≡ true =
            any-find (λ k. k.id == id) (λ j. j.id == k.id) is found (ground arith) in
          let f : true ≡ false = sym known ∙ fresh in cc)
  ]

  granted-Lives :
      (k : StaffInvite) (db mid : StaffDb) (c : Claim)
      → Lives db.invites
      → Lives (claimed_db mid c).invites
      → Lives (spending_db db (granted k c)).invites
  unfolding grant
  granted-Lives k db mid (claimed u after) h g = g
  granted-Lives k db mid must_prove h g = h
  granted-Lives k db mid taken h g = h

  spent-Lives :
      (now : ℕ) (s : Spend) (db : StaffDb) (o : Option StaffInvite)
      → Lives db.invites
      → Lives (spending_db db (spent now s db o)).invites
  unfolding spent
  spent-Lives now s db none h = h
  spent-Lives now s db (some k) h =
      let mid : StaffDb = record db {
        invites = update_where (is_spendable now s.invite_id) (spend_at s.stamp) db.invites;
      } in
      let claim = resolve_account s k.email mid (find (λ u. str_eq u.email k.email) db.users) in
      granted-Lives k db mid claim h (
        subst Lives (sym (resolve_account-invites s k.email mid _)) (
          update-Lives (is_spendable now s.invite_id) (spend_at s.stamp) (λ j. refl)
            (λ j y. accepts s.stamp (is_live-open now j (ground arith))) db.invites h))

  remove_staff-Lives :
      (tenant user : ℕ) (db : StaffDb)
      → not_sender i tenant user ≡ true
      → Lives db.invites
      → Lives (remove_staff tenant user db).1.invites
  unfolding remove_staff cascade_membership Lives
  remove_staff-Lives tenant user db m (j, found, move) =
      elim (Bool-cases (staff_exists tenant user db)) [
        | inr n ↦ rw n (j, found, move)
        | inl y ↦ rw y (
          j,
          find-select (λ k. k.id == id) (λ k. not (is_invite_by user tenant k)) db.invites found
              (rw (InviteMove-sender user tenant move) m),
          move,
        )
      ]

  Lives-StaffWrites : StaffWrites (not_sender i) (λ db. Lives db.invites)
  unfolding accept replace_assignments supersede_expired_invites revoke_invite create_invite
  Lives-StaffWrites = record {
    supersede = λ tenant now email db h.
        update-Lives _ (revoke_at now) (λ j. refl) (λ j y. revokes now (ground arith)) db.invites h;
    insert = λ tenant email ids new db none h.
        insert-Lives _ db.invites (invite_check-none tenant email new db none).0 h;
    close = λ tenant now k db h.
        update-Lives _ (revoke_at now) (λ j. refl) (λ j y. revokes now (ground arith)) db.invites h;
    spend = λ now s db h. spent-Lives now s db _ h;
    replace = λ tenant user ids db exists h. h;
    unseat = remove_staff-Lives;
  }

  -- After any sequence of invitations, revocations, acceptances, reassignments and removals in which
  -- the sender of an invite is not removed from the tenant, looking the invite up by its id finds it
  -- as it was, or finds it accepted or revoked once, where it was neither before: so an accepted or
  -- revoked invite never changes again.
  pub StaffRun-InviteMove :
      {db after : StaffDb} (run : StaffRun db after)
      → invite_by_id id db.invites ≡ some i
      → spares (not_sender i) run ≡ true
      → (j : StaffInvite) × (invite_by_id id after.invites ≡ some j) × InviteMove i j
  unfolding Lives
  StaffRun-InviteMove run found spared =
      StaffRun-keeps Lives-StaffWrites run spared (i, found, kept)
