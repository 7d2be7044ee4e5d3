-- ===== src/Staff/Seats.antt =====
-- The composite foreign keys that go through `membership` and `staff_invite`
-- (packages/db/src/schema.ts): no write of apps/api/src/staff runs into them.
use sambung.Common.{
  ℕ, ◌≡◌, refl, Bool, true, false, not, ◌&&◌, some, List, [], ◌∷◌, ◌++◌, map, select, any, All,
  ◌==◌, ==_iff, Bool-cases, inl, inr, arith, find, any-find, subst, sym, ◌∙◌, any-select-false,
}
use sambung.Db.Bookings.{update_where}
use sambung.Staff.Schema.{
  Membership, StaffInvite, StaffInviteProperty, UserProperty, StaffDb, has_seat,
}
use sambung.Staff.Accept.{add_seat, add_assignments}
use sambung.Staff.Team.{is_assignment_of, is_staff_seat, grants_for}

-- `user_property_app_user_tenant_fk`
abbrev pub AreSeated : List Membership → List UserProperty → Type 0
AreSeated ms ups = All (λ a. has_seat a.app_user_id a.tenant_id ms ≡ true) ups

abbrev has_invite : StaffInviteProperty → StaffInvite → Bool
has_invite p i = i.id == p.invite_id

abbrev is_stray : StaffInviteProperty → StaffInvite → Bool
is_stray p i = i.id == p.invite_id && not (i.tenant_id == p.tenant_id)

-- The foreign key of `staff_invite_property`: its invite is there, and is the tenant's.
abbrev is_scoped : List StaffInvite → StaffInviteProperty → Bool
is_scoped is p = any (has_invite p) is && not (any (is_stray p) is)

abbrev pub AreScoped : List StaffInvite → List StaffInviteProperty → Type 0
AreScoped is ps = All (λ p. is_scoped is p ≡ true) ps

pub record HasSeats (db : StaffDb) : Type 0 where
  pub seated : AreSeated db.memberships db.user_properties
  pub scoped : AreScoped db.invites db.invite_properties

module _ {ℓ} {A : Type ℓ} where
  All-select : (P : A → Type 0) (p : A → Bool) (xs : List A) → All P xs → All P (select p xs)
  All-select P p [] h = tt
  All-select P p (x ∷ xs) h = elim (Bool-cases (p x)) [
    | inl y ↦ rw y (h.0, All-select P p xs h.1)
    | inr n ↦ rw n (All-select P p xs h.1)
  ]

  pub All-imp : (P Q : A → Type 0) → ((x : A) → P x → Q x) → (xs : List A) → All P xs → All Q xs
  All-imp P Q f [] h = tt
  All-imp P Q f (x ∷ xs) h = (f x h.0, All-imp P Q f xs h.1)

  any-kept :
      (p q : A → Bool) (f : A → A)
      → ((x : A) → q (f x) ≡ q x)
      → (xs : List A) → any q (update_where p f xs) ≡ any q xs
  any-kept p q f same [] = refl
  any-kept p q f same (x ∷ xs) = ground (arith, same x, any-kept p q f same xs)

pub update-AreScoped :
    (p : StaffInvite → Bool) (f : StaffInvite → StaffInvite)
    → ((i : StaffInvite) → (f i).id ≡ i.id)
    → ((i : StaffInvite) → (f i).tenant_id ≡ i.tenant_id)
    → (is : List StaffInvite) (ps : List StaffInviteProperty) → AreScoped is ps
    → AreScoped (update_where p f is) ps
update-AreScoped p f ids tenants is ps h =
    All-imp (λ q. is_scoped is q ≡ true) (λ q. is_scoped (update_where p f is) q ≡ true)
      (λ q e.
        rw
          (
            any-kept p (has_invite q) f (λ i. rw (ids i) refl) is,
            any-kept p (is_stray q) f (λ i. rw (ids i, tenants i) refl) is,
          )
          e)
      ps h

other_id :
    (new : ℕ) (p : StaffInviteProperty) (is : List StaffInvite)
    → any (λ i. i.id == new) is ≡ false
    → any (has_invite p) is ≡ true
    → (new == p.invite_id) ≡ false
other_id new p is fresh known = elim (Bool-cases (new == p.invite_id)) [
  | inr n ↦ n
  | inl y ↦
      (let e : true ≡ false =
          sym known
          ∙ subst (λ k. any (λ i. i.id == k) is ≡ false) ((==_iff new p.invite_id).0 y) fresh in
        cc)
]

pub old-AreScoped :
    (i : StaffInvite) (is : List StaffInvite) (ps : List StaffInviteProperty)
    → any (λ j. j.id == i.id) is ≡ false
    → AreScoped is ps
    → AreScoped (i ∷ is) ps
old-AreScoped i is ps fresh h =
    All-imp (λ p. is_scoped is p ≡ true) (λ p. is_scoped (i ∷ is) p ≡ true)
      (λ p e.
        let known : any (has_invite p) is ≡ true = ground arith in
        rw (other_id i.id p is fresh known) e)
      ps h

no_stray :
    (new tenant : ℕ) (is : List StaffInvite) (property : ℕ)
    → any (λ j. j.id == new) is ≡ false
    → any (is_stray (record { invite_id = new; property_id = property; tenant_id = tenant })) is
      ≡ false
no_stray new tenant [] property h = refl
no_stray new tenant (i ∷ is) property h = ground (arith, no_stray new tenant is property)

pub new-AreScoped :
    (i : StaffInvite) (is : List StaffInvite) (ids : List ℕ) (ps : List StaffInviteProperty)
    → any (λ j. j.id == i.id) is ≡ false
    → AreScoped (i ∷ is) ps
    → AreScoped
        (i ∷ is)
        (map (λ p. record { invite_id = i.id; property_id = p; tenant_id = i.tenant_id }) ids ++ ps)
new-AreScoped i is [] ps fresh h = h
new-AreScoped i is (k ∷ ids) ps fresh h =
    (rw (no_stray i.id i.tenant_id is k fresh) (ground arith), new-AreScoped i is ids ps fresh h)

granted_by :
    (p : StaffInviteProperty) (is : List StaffInvite)
    → any (grants_for p) is ≡ true
    → any (has_invite p) is ≡ true
granted_by p [] h = h
granted_by p (i ∷ is) h = ground (arith, granted_by p is)

select-scoped :
    (q : StaffInvite → Bool) (is : List StaffInvite) (p : StaffInviteProperty)
    → any (grants_for p) (select q is) ≡ true
    → is_scoped is p ≡ true
    → is_scoped (select q is) p ≡ true
select-scoped q is p g h =
    let tidy : any (is_stray p) is ≡ false = ground arith in
    rw (granted_by p (select q is) g, any-select-false (is_stray p) q is tidy) refl

pub select-AreScoped :
    (q : StaffInvite → Bool) (is : List StaffInvite) (ps : List StaffInviteProperty)
    → AreScoped is ps
    → AreScoped (select q is) (select (λ p. any (grants_for p) (select q is)) ps)
select-AreScoped q is [] h = tt
select-AreScoped q is (p ∷ ps) h = elim (Bool-cases (any (grants_for p) (select q is))) [
  | inl y ↦ rw y (select-scoped q is p y h.0, select-AreScoped q is ps h.1)
  | inr n ↦ rw n (select-AreScoped q is ps h.1)
]

pub more_seats :
    (user tenant u t : ℕ) (ms : List Membership)
    → has_seat u t ms ≡ true
    → has_seat u t (add_seat user tenant ms) ≡ true
unfolding add_seat
more_seats user tenant u t ms h = elim (Bool-cases (has_seat user tenant ms)) [
  | inl y ↦ rw y h
  | inr n ↦ rw (n, h) (ground arith)
]

pub new_seat :
    (user tenant : ℕ) (ms : List Membership) → has_seat user tenant (add_seat user tenant ms) ≡ true
unfolding add_seat
new_seat user tenant ms = elim (Bool-cases (has_seat user tenant ms)) [
  | inl y ↦ rw y y
  | inr n ↦ rw n (ground arith)
]

pub add_assignments-AreSeated :
    (user tenant : ℕ) (ms : List Membership) (ps : List StaffInviteProperty)
    (ups : List UserProperty)
    → has_seat user tenant ms ≡ true
    → All (λ p. p.tenant_id ≡ tenant) ps
    → AreSeated ms ups
    → AreSeated ms (add_assignments user ps ups)
unfolding add_assignments
add_assignments-AreSeated user tenant ms [] ups seat same h = h
add_assignments-AreSeated user tenant ms (p ∷ ps) ups seat same h =
    let rest = add_assignments-AreSeated user tenant ms ps ups seat same.1 h in
    elim (Bool-cases (
      any (λ a. a.app_user_id == user && a.property_id == p.property_id)
        (add_assignments user ps ups))) [ inl y ↦ rw y rest | inr n ↦ rw n (rw same.0 seat, rest) ]

other_seat :
    (user tenant u t : ℕ) (ms : List Membership)
    → (u == user && t == tenant) ≡ false
    → has_seat u t ms ≡ true
    → has_seat u t (select (λ m. not (is_staff_seat user tenant m)) ms) ≡ true
other_seat user tenant u t [] ne h = h
other_seat user tenant u t (m ∷ ms) ne h = ground (arith, other_seat user tenant u t ms)

pub other_seats :
    (user tenant : ℕ) (ms : List Membership) (ups : List UserProperty)
    → AreSeated ms ups
    → AreSeated
        (select (λ m. not (is_staff_seat user tenant m)) ms)
        (select (λ a. not (is_assignment_of user tenant a)) ups)
other_seats user tenant ms [] h = tt
other_seats user tenant ms (a ∷ ups) h = elim (Bool-cases (is_assignment_of user tenant a)) [
  | inl y ↦ rw y (other_seats user tenant ms ups h.1)
  | inr n ↦ rw n (
    other_seat user tenant a.app_user_id a.tenant_id ms n h.0,
    other_seats user tenant ms ups h.1,
  )
]

pub replaced-AreSeated :
    (user tenant : ℕ) (ids : List ℕ) (ms : List Membership) (ups : List UserProperty)
    → has_seat user tenant ms ≡ true
    → AreSeated ms ups
    → AreSeated ms (
        map (λ p. record { app_user_id = user; property_id = p; tenant_id = tenant }) ids
        ++ select (λ a. not (is_assignment_of user tenant a)) ups)
replaced-AreSeated user tenant [] ms ups seat h =
    All-select (λ a. has_seat a.app_user_id a.tenant_id ms ≡ true) _ ups h
replaced-AreSeated user tenant (k ∷ ids) ms ups seat h =
    (seat, replaced-AreSeated user tenant ids ms ups seat h)

pub staff_exists-seat :
    (tenant user : ℕ) (ms : List Membership)
    → any (is_staff_seat user tenant) ms ≡ true
    → has_seat user tenant ms ≡ true
staff_exists-seat tenant user [] h = h
staff_exists-seat tenant user (m ∷ ms) h = ground (arith, staff_exists-seat tenant user ms)

-- What the invite grants is of its tenant.
pub grants-tenant :
    (i : StaffInvite) (q : StaffInvite → Bool) (is : List StaffInvite)
    (ps : List StaffInviteProperty)
    → find q is ≡ some i
    → AreScoped is ps
    → All (λ p. p.tenant_id ≡ i.tenant_id) (select (λ p. p.invite_id == i.id) ps)
grants-tenant i q is [] found h = tt
grants-tenant i q is (p ∷ ps) found h = elim (Bool-cases (p.invite_id == i.id)) [
  | inr n ↦ rw n (grants-tenant i q is ps found h.1)
  | inl y ↦ rw y (
    elim (Bool-cases (i.tenant_id == p.tenant_id)) [
      | inl e ↦ sym ((==_iff i.tenant_id p.tenant_id).0 e)
      | inr ne ↦
          (let stray : any (is_stray p) is ≡ true =
              any-find q (is_stray p) is found (ground arith) in
            let tidy : any (is_stray p) is ≡ false = (let k = h.0 in ground arith) in
            let f : true ≡ false = sym stray ∙ tidy in cc)
    ],
    grants-tenant i q is ps found h.1,
  )
]
