-- ===== src/Staff/OneOpen.antt =====
-- The partial unique index `staff_invite_live_email_uniq` (packages/db/src/schema.ts).
use sambung.Common.{
  ℕ, ◌≤◌, ◌≡◌, refl, String, Bool, true, false, not, ◌&&◌, Option, none, some, List, [], ◌∷◌,
  select, any, length, ◌==◌, str_eq, eq_iff, ==_iff, Bool-cases, inl, inr, arith, find, subst, sym,
  any-select-false,
}
use sambung.Db.Bookings.{update_where}
use sambung.Staff.Schema.{StaffInvite, StaffDb}
use sambung.Staff.Invites.{
  is_open, is_for, revoke_at, supersede_expired_invites, NewInvite, invite_check, create_invite,
  revoke_invite, staff_invite_pkey, staff_invite_token_hash_key, staff_invite_live_email_uniq,
}
use sambung.Staff.Accept.{
  Spend, Claim, claimed, must_prove, taken, spend_at, granted, spent, accept, resolve_account,
  is_spendable, grant,
}
use sambung.Staff.Team.{
  remove_staff, cascade_membership, is_invite_by, replace_assignments, staff_exists,
}
use sambung.Staff.Run.{StaffRun}
use sambung.Staff.Keeps.{
  claimed_db, spending_db, StaffWrites, StaffRun-keeps, resolve_account-invites, anyone,
  spares-anyone,
}

abbrev is_open_for : ℕ → String → StaffInvite → Bool
is_open_for tenant email i = is_for tenant email i && is_open i

abbrev rival : StaffInvite → List StaffInvite → Bool
rival i is = is_open i && any (is_open_for i.tenant_id i.email) is

abbrev pub OneOpen : List StaffInvite → Type 0
OneOpen [] = Unit
OneOpen (i ∷ is) = (rival i is ≡ false) × OneOpen is

module _ (p : StaffInvite → Bool) (f : StaffInvite → StaffInvite)
    (closes : (i : StaffInvite) → is_open (f i) ≡ false) where
  any-closed :
      (tenant : ℕ) (email : String) (is : List StaffInvite)
      → any (is_open_for tenant email) is ≡ false
      → any (is_open_for tenant email) (update_where p f is) ≡ false
  any-closed tenant email [] h = refl
  any-closed tenant email (i ∷ is) h = ground (arith, closes i, any-closed tenant email is)

  update-OneOpen : (is : List StaffInvite) → OneOpen is → OneOpen (update_where p f is)
  update-OneOpen [] h = tt
  update-OneOpen (i ∷ is) h = elim (Bool-cases (p i)) [
    | inl y ↦ rw y (rw (closes i) refl, update-OneOpen is h.1)
    | inr n ↦ rw n (
      elim (Bool-cases (is_open i)) [
        | inr c ↦ rw c refl
        | inl o ↦ rw (o, any-closed i.tenant_id i.email is (rw o at h.0)) refl
      ],
      update-OneOpen is h.1,
    )
  ]

select-OneOpen :
    (p : StaffInvite → Bool) (is : List StaffInvite) → OneOpen is → OneOpen (select p is)
select-OneOpen p [] h = tt
select-OneOpen p (i ∷ is) h = elim (Bool-cases (p i)) [
  | inr n ↦ rw n (select-OneOpen p is h.1)
  | inl y ↦ rw y (
    elim (Bool-cases (is_open i)) [
      | inr c ↦ rw c refl
      | inl o ↦ rw (o, any-select-false (is_open_for i.tenant_id i.email) p is (rw o at h.0)) refl
    ],
    select-OneOpen p is h.1,
  )
]

revoke_at-closes : (now : ℕ) (i : StaffInvite) → is_open (revoke_at now i) ≡ false
revoke_at-closes now i = ground arith

-- An insert that no constraint refuses.
pub invite_check-none :
    (tenant : ℕ) (email : String) (new : NewInvite) (db : StaffDb)
    → invite_check tenant email new db ≡ none
    → (any (λ i. i.id == new.id) db.invites ≡ false)
      × (any (is_open_for tenant email) db.invites ≡ false)
unfolding invite_check
invite_check-none tenant email new db e = elim (Bool-cases (any (λ i. i.id == new.id) db.invites)) [
  | inl y ↦ (let f : some staff_invite_pkey ≡ none = rw y at e in cc)
  | inr fresh ↦ elim (Bool-cases (any (λ i. str_eq i.token_hash new.token_hash) db.invites)) [
    | inl y ↦ (let f : some staff_invite_token_hash_key ≡ none = rw (fresh, y) at e in cc)
    | inr n ↦ elim (Bool-cases (any (is_open_for tenant email) db.invites)) [
      | inl y ↦ (let f : some staff_invite_live_email_uniq ≡ none = rw (fresh, n, y) at e in cc)
      | inr alone ↦ (fresh, alone)
    ]
  ]
]

insert-OneOpen :
    (tenant : ℕ) (email : String) (ids : List ℕ) (new : NewInvite) (db : StaffDb)
    → invite_check tenant email new db ≡ none
    → OneOpen db.invites
    → OneOpen (create_invite tenant email ids new db).invites
unfolding create_invite invite_check
insert-OneOpen tenant email ids new db e h = ((invite_check-none tenant email new db e).1, h)

granted-OneOpen :
    (i : StaffInvite) (db mid : StaffDb) (c : Claim)
    → OneOpen db.invites
    → OneOpen (claimed_db mid c).invites
    → OneOpen (spending_db db (granted i c)).invites
unfolding grant
granted-OneOpen i db mid (claimed u after) g h = h
granted-OneOpen i db mid must_prove g h = g
granted-OneOpen i db mid taken g h = g

spent-OneOpen :
    (now : ℕ) (s : Spend) (db : StaffDb) (o : Option StaffInvite)
    → OneOpen db.invites
    → OneOpen (spending_db db (spent now s db o)).invites
unfolding spent
spent-OneOpen now s db none h = h
spent-OneOpen now s db (some i) h =
    let mid : StaffDb = record db {
      invites = update_where (is_spendable now s.invite_id) (spend_at s.stamp) db.invites;
    } in
    let claim = resolve_account s i.email mid (find (λ u. str_eq u.email i.email) db.users) in
    let same : (claimed_db mid claim).invites ≡ mid.invites =
      resolve_account-invites s i.email mid _ in
    granted-OneOpen i db mid claim h (
      subst (λ js. OneOpen js) (sym same)
        (update-OneOpen (is_spendable now s.invite_id) (spend_at s.stamp) (λ j. refl) db.invites h))

remove_staff-OneOpen :
    (tenant user : ℕ) (db : StaffDb)
    → OneOpen db.invites
    → OneOpen (remove_staff tenant user db).1.invites
unfolding remove_staff cascade_membership
remove_staff-OneOpen tenant user db h = elim (Bool-cases (staff_exists tenant user db)) [
  | inl y ↦ rw y (select-OneOpen (λ i. not (is_invite_by user tenant i)) db.invites h)
  | inr n ↦ rw n h
]

OneOpen-StaffWrites : StaffWrites anyone (λ db. OneOpen db.invites)
unfolding accept replace_assignments supersede_expired_invites revoke_invite
OneOpen-StaffWrites = record {
  supersede =
      λ tenant now email db h. update-OneOpen _ (revoke_at now) (revoke_at-closes now) db.invites h;
  insert = insert-OneOpen;
  close =
      λ tenant now id db h. update-OneOpen _ (revoke_at now) (revoke_at-closes now) db.invites h;
  spend = λ now s db h. spent-OneOpen now s db _ h;
  replace = λ tenant user ids db exists h. h;
  unseat = λ tenant user db m h. remove_staff-OneOpen tenant user db h;
}

same_key :
    (tenant : ℕ) (email : String) (i : StaffInvite) (is : List StaffInvite)
    → is_open_for tenant email i ≡ true
    → rival i is ≡ false
    → any (is_open_for tenant email) is ≡ false
same_key tenant email i is y h =
    let of_tenant : i.tenant_id ≡ tenant = (==_iff i.tenant_id tenant).0 (ground arith) in
    let of_email : i.email ≡ email = (eq_iff i.email email).0 (ground arith) in
    let is_opened : is_open i ≡ true = ground arith in
    subst (λ e. any (is_open_for tenant e) is ≡ false) of_email
      (subst (λ t. any (is_open_for t i.email) is ≡ false) of_tenant (rw is_opened at h))

OneOpen-none :
    (tenant : ℕ) (email : String) (is : List StaffInvite)
    → any (is_open_for tenant email) is ≡ false
    → length (select (is_open_for tenant email) is) ≡ 0
OneOpen-none tenant email [] h = refl
OneOpen-none tenant email (i ∷ is) h = ground (arith, OneOpen-none tenant email is)

OneOpen-length :
    (tenant : ℕ) (email : String) (is : List StaffInvite)
    → OneOpen is
    → length (select (is_open_for tenant email) is) ≤ 1
OneOpen-length tenant email [] h = omega arith
OneOpen-length tenant email (i ∷ is) h = elim (Bool-cases (is_open_for tenant email i)) [
  | inr n ↦ rw n (OneOpen-length tenant email is h.1)
  | inl y ↦ rw y (omega (arith, OneOpen-none tenant email is (same_key tenant email i is y h.0)))
]

-- From tables with at most one invite that is neither accepted nor revoked for each tenant and
-- address, after any sequence of requests of the team's pages, there is at most one for each
-- tenant and address.
pub StaffRun-open :
    {db after : StaffDb} (tenant : ℕ) (email : String)
    → OneOpen db.invites
    → StaffRun db after
    → length (select (λ i. is_for tenant email i && is_open i) after.invites) ≤ 1
StaffRun-open {after = after} tenant email h run =
    OneOpen-length tenant email after.invites
      (StaffRun-keeps OneOpen-StaffWrites run (spares-anyone run) h)
