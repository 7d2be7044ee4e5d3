-- ===== src/Staff/Passwords.antt =====
-- Spending an invite and the password of an account that has a seat.
use sambung.Staff.Keeps.{claimed_db, spending_db, accept_invite-cases}
use sambung.Common.{
  ℕ, ◌<◌, ◌≡◌, refl, ap, String, Bool, true, false, ◌&&◌, Option, none, some, List, [], ◌∷◌, ltb,
  ◌==◌, str_eq, any, arith, Bool-cases, lt→ltb, sym, ==_iff, ◌∙◌, inl, inr,
}
use sambung.Db.Bookings.{update_where}
use sambung.Staff.Schema.{AppUser, StaffInvite, StaffDb}
use sambung.Staff.Invites.{seats}
use sambung.Staff.Accept.{
  Spend, Claim, claimed, must_prove, taken, set_password, create_account, reclaim_account,
  resolve_account, granted, grant, spent, accept, AcceptRequest, Reads, accept_invite, is_id,
}

-- Somebody signs in to the account `id` with a password of this hash.
abbrev pub is_login : ℕ → String → AppUser → Bool
is_login id hash u = u.id == id && str_eq u.password_hash hash

unfoldable pub has_login : ℕ → String → StaffDb → Bool
has_login id hash db = any (is_login id hash) db.users

other_password :
    (id other : ℕ) (hash new : String) (us : List AppUser)
    → (id == other) ≡ false
    → any (is_login id hash) us ≡ true
    → any (is_login id hash) (update_where (λ v. v.id == other) (set_password new) us) ≡ true
other_password id other hash new [] ne h = h
other_password id other hash new (u ∷ us) ne h =
    ground (arith, other_password id other hash new us ne)

seated_apart :
    (id other : ℕ) (db : StaffDb)
    → 0 < seats id db
    → ltb 0 (seats other db) ≡ false
    → (id == other) ≡ false
seated_apart id other db seated inert = elim (Bool-cases (id == other)) [
  | inl y ↦
      (let e : true ≡ false =
          sym (lt→ltb 0 (seats id db) seated)
          ∙ ap (λ i. ltb 0 (seats i db)) ((==_iff id other).0 y)
          ∙ inert in
        cc)
  | inr n ↦ n
]

module _ (id : ℕ) (hash : String) where
  create_account-keeps :
      (s : Spend) (email : String) (db : StaffDb)
      → has_login id hash db ≡ true
      → has_login id hash (claimed_db db (create_account s email db)) ≡ true
  unfolding has_login create_account
  create_account-keeps s email db h =
      elim (Bool-cases (any (λ u. u.id == s.new_user_id) db.users)) [
        | inl y ↦ rw y h
        | inr n ↦ rw (n, h) (ground arith)
      ]

  reclaim_account-keeps :
      (s : Spend) (u : AppUser) (db : StaffDb)
      → ltb 0 (seats u.id db) ≡ false
      → 0 < seats id db
      → has_login id hash db ≡ true
      → has_login id hash (claimed_db db (reclaim_account s u db)) ≡ true
  unfolding has_login reclaim_account
  reclaim_account-keeps s u db inert seated h =
      other_password id u.id hash s.password_hash db.users (seated_apart id u.id db seated inert) h

  resolve_account-keeps :
      (s : Spend) (email : String) (db : StaffDb) (o : Option AppUser)
      → 0 < seats id db
      → has_login id hash db ≡ true
      → has_login id hash (claimed_db db (resolve_account s email db o)) ≡ true
  unfolding resolve_account
  resolve_account-keeps s email db none seated h = create_account-keeps s email db h
  resolve_account-keeps s email db (some u) seated h =
      elim (Bool-cases (is_id s.verified_user_id u.id)) [
        | inl y ↦ rw y h
        | inr n ↦ elim (Bool-cases (ltb 0 (seats u.id db))) [
          | inl y ↦ rw (n, y) h
          | inr inert ↦ rw (n, inert) (reclaim_account-keeps s u db inert seated h)
        ]
      ]

  granted-keeps :
      (i : StaffInvite) (db before : StaffDb) (c : Claim)
      → has_login id hash (claimed_db before c) ≡ true
      → has_login id hash before ≡ has_login id hash db
      → has_login id hash (spending_db db (granted i c)) ≡ true
  unfolding has_login grant
  granted-keeps i db before (claimed u after) h same = h
  granted-keeps i db before must_prove h same = sym same ∙ h
  granted-keeps i db before taken h same = sym same ∙ h

  spent-keeps :
      (now : ℕ) (s : Spend) (db : StaffDb) (o : Option StaffInvite)
      → 0 < seats id db
      → has_login id hash db ≡ true
      → has_login id hash (spending_db db (spent now s db o)) ≡ true
  unfolding has_login seats spent
  spent-keeps now s db none seated h = h
  spent-keeps now s db (some i) seated h =
      granted-keeps i db _ _ (resolve_account-keeps s i.email _ _ seated h) refl

  pub accept-keeps :
      (now : ℕ) (s : Spend) (db : StaffDb)
      → 0 < seats id db
      → has_login id hash db ≡ true
      → has_login id hash (spending_db db (accept now s db)) ≡ true
  unfolding accept
  accept-keeps now s db seated h = spent-keeps now s db _ seated h

  -- A request to accept an invite, whatever the reads before its transaction saw and whatever the
  -- comparison of passwords answers, leaves in place the password of an account that has a seat in
  -- the tables that the transaction runs on.
  pub accept_invite-keeps :
      (compare : String → String → Bool) (req : AcceptRequest) (reads : Reads) (now : ℕ)
      (db : StaffDb)
      → 0 < seats id db
      → has_login id hash db ≡ true
      → has_login id hash (accept_invite compare req reads now db).1 ≡ true
  accept_invite-keeps compare req reads now db seated h =
      accept_invite-cases (λ after. has_login id hash after ≡ true) compare req reads now db h
        (λ s. accept-keeps now s db seated h)
