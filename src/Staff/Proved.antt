-- ===== src/Staff/Proved.antt =====
-- Whose password an accepted invite asked for.
use sambung.Db.Bookings.{update_where}
use sambung.Common.{
  arith, ℕ, ◌<◌, ◌≡◌, refl, sym, ◌∙◌, subst, String, Bool, true, false, Option, none, some, ◌&&◌,
  inl, inr, ltb, ◌==◌, str_eq, find, any, any-find, Bool-cases, Option-cases, ==_iff, lt→ltb,
  some_inj, length, select,
}
use sambung.Staff.Schema.{AppUser, StaffInvite, StaffDb}
use sambung.Staff.Invites.{
  seats, ok, find_by_token_hash, find_account_by_email, AccountForInvite, signin, create,
  InviteAcceptMode, invite_accept_mode_for, err, not_found, unauthorized,
}
use sambung.Staff.Accept.{
  Spend, Claim, claimed, Spending, accepted, granted, create_account, reclaim_account,
  resolve_account, spent, accept, AcceptRequest, Reads, accept_reply, accept_invite, verify, is_id,
  must_prove, taken, not_live, password_required, duplicate_account, is_spendable, spend_at,
  verify_as,
}

-- A new account, the one that was verified, or one without seats.
data Claims (db : StaffDb) (verified : Option ℕ) (id : ℕ) : Type 0 where
  fresh : any (λ u. u.id == id) db.users ≡ false → Claims db verified id
  proved : is_id verified id ≡ true → Claims db verified id
  inert : ltb 0 (seats id db) ≡ false → Claims db verified id

-- What is said of the user that a transaction seats.
abbrev OfClaim : (ℕ → Type 0) → Claim → Type 0
OfClaim P (claimed u after) = P u.id
OfClaim P _ = Unit

abbrev OfSpending : (ℕ → Type 0) → Spending → Type 0
OfSpending P (accepted u tenant after) = P u.id
OfSpending P _ = Unit

mapped : {P Q : ℕ → Type 0} (c : Claim) → ((id : ℕ) → P id → Q id) → OfClaim P c → OfClaim Q c
mapped (claimed u after) f h = f u.id h
mapped must_prove f h = tt
mapped taken f h = tt

create_account-Claims :
    (s : Spend) (email : String) (db : StaffDb)
    → OfClaim (Claims db s.verified_user_id) (create_account s email db)
unfolding create_account
create_account-Claims s email db = elim (Bool-cases (any (λ u. u.id == s.new_user_id) db.users)) [
  | inl y ↦ rw y tt
  | inr n ↦ rw n (fresh n)
]

resolve_account-Claims :
    (s : Spend) (email : String) (db : StaffDb) (o : Option AppUser)
    → OfClaim (Claims db s.verified_user_id) (resolve_account s email db o)
unfolding resolve_account reclaim_account
resolve_account-Claims s email db none = create_account-Claims s email db
resolve_account-Claims s email db (some w) = elim (Bool-cases (is_id s.verified_user_id w.id)) [
  | inl y ↦ rw y (proved y)
  | inr n ↦ elim (Bool-cases (ltb 0 (seats w.id db))) [
    | inl y ↦ rw (n, y) tt
    | inr i ↦ rw (n, i) (inert i)
  ]
]

granted-OfSpending :
    (P : ℕ → Type 0) (i : StaffInvite) (c : Claim) → OfClaim P c → OfSpending P (granted i c)
granted-OfSpending P i (claimed u after) h = h
granted-OfSpending P i must_prove h = tt
granted-OfSpending P i taken h = tt

-- Only the accounts and their seats count.
same-Claims :
    (before db : StaffDb) (v : Option ℕ)
    → before.users ≡ db.users
    → before.memberships ≡ db.memberships
    → (id : ℕ) → Claims before v id
    → Claims db v id
unfolding seats
same-Claims before db v e f id (fresh h) =
    fresh (subst (λ us. any (λ u. u.id == id) us ≡ false) e h)
same-Claims before db v e f id (proved h) = proved h
same-Claims before db v e f id (inert h) =
    inert (subst (λ ms. ltb 0 (length (select (λ m. m.app_user_id == id) ms)) ≡ false) f h)

spent-Claims :
    (now : ℕ) (s : Spend) (db : StaffDb) (o : Option StaffInvite)
    → OfSpending (Claims db s.verified_user_id) (spent now s db o)
unfolding spent
spent-Claims now s db none = tt
spent-Claims now s db (some i) =
    let mid : StaffDb = record db {
      invites = update_where (is_spendable now s.invite_id) (spend_at s.stamp) db.invites;
    } in
    let account = find (λ u. str_eq u.email i.email) db.users in
    granted-OfSpending (Claims db s.verified_user_id) i (resolve_account s i.email mid account) (
      mapped (resolve_account s i.email mid account)
        (same-Claims mid db s.verified_user_id refl refl)
        (resolve_account-Claims s i.email mid account))

accept-Claims :
    (now : ℕ) (s : Spend) (db : StaffDb)
    → OfSpending (Claims db s.verified_user_id) (accept now s db)
unfolding accept
accept-Claims now s db = spent-Claims now s db _

module _ (compare : String → String → Bool) where
  -- The account that the password opens.
  unfoldable pub opens : String → ℕ → StaffDb → Bool
  opens password id db = any (λ u. u.id == id && compare password u.password_hash) db.users

  verify_as-opens :
      (password : String) (a : AccountForInvite) (mode : InviteAcceptMode) (v : Option ℕ) (id : ℕ)
      → verify_as compare password (some a) mode ≡ some v
      → is_id v id ≡ true
      → (a.id ≡ id) × (compare password a.password_hash ≡ true)
  verify_as-opens password a create none id e h = cc
  verify_as-opens password a create (some v) id e h = cc
  verify_as-opens password a signin v id e h =
      elim (Bool-cases (compare password a.password_hash)) [
        | inl c ↦
            let f : some (some a.id) ≡ some v = rw c at e in
            ((==_iff a.id id).0 (subst (λ w. is_id w id ≡ true) (sym (some_inj.0 f)) h), c)
        | inr n ↦ (let f : none ≡ some v = rw n at e in cc)
      ]

  verify-opens :
      (password : String) (a : Option AccountForInvite) (v : Option ℕ) (id : ℕ)
      → verify compare password a ≡ some v
      → is_id v id ≡ true
      → (b : AccountForInvite) × (a ≡ some b)
        × (b.id ≡ id)
        × (compare password b.password_hash ≡ true)
  unfolding verify invite_accept_mode_for
  verify-opens password none none id e h = cc
  verify-opens password none (some v) id e h = cc
  verify-opens password (some a) v id e h =
      let (same, opened) = verify_as-opens password a (invite_accept_mode_for (some a)) v id e h in
      (a, refl, same, opened)

  account-opens :
      (password email : String) (db : StaffDb) {b : AccountForInvite}
      → find_account_by_email email db ≡ some b
      → compare password b.password_hash ≡ true
      → opens password b.id db ≡ true
  unfolding find_account_by_email opens
  account-opens password email db {b} e h =
      elim (Option-cases (find (λ u. str_eq u.email email) db.users)) [
        | inl n ↦ (let f : none ≡ some b = rw n at e in cc)
        | inr (u, y) ↦
            (let f : some (record {
              id = u.id;
              password_hash = u.password_hash;
              seat_count = seats u.id db;
            })
                  ≡ some b =
                rw y at e in
              subst
                (λ a. any (λ u. u.id == a.id && compare password u.password_hash) db.users ≡ true)
                (some_inj.0 f)
                (any-find (λ u. str_eq u.email email)
                  (λ w. w.id == u.id && compare password w.password_hash) db.users y
                  (rw (subst (λ a. compare password a.password_hash ≡ true) (sym (some_inj.0 f)) h)
                    (ground arith))))
      ]

  reply-user :
      (req : AcceptRequest) (reads : Reads) (db : StaffDb) (P : ℕ → Type 0) (r : Spending)
      {u : AppUser} {tenant : ℕ} {after : StaffDb}
      → OfSpending P r
      → accept_reply reads req.token_hash db r ≡ (ok (u, tenant), after)
      → P u.id
  reply-user req reads db P (accepted w t d) {u} h e = let same : w.id ≡ u.id = cc in subst P same h
  reply-user req reads db P not_live h e = cc
  reply-user req reads db P password_required h e = cc
  reply-user req reads db P duplicate_account h e = cc

  seated-opens :
      (password email : String) (now : ℕ) (seen db : StaffDb) (v : Option ℕ) (id : ℕ)
      → verify compare password (find_account_by_email email seen) ≡ some v
      → any (λ w. w.id == id) db.users ≡ true
      → 0 < seats id db
      → Claims db v id
      → opens password id seen ≡ true
  seated-opens password email now seen db v id e known seated (fresh n) =
      (let f : true ≡ false = sym known ∙ n in cc)
  seated-opens password email now seen db v id e known seated (proved p) =
      let (b, found, same, opened) = verify-opens password _ v id e p in
      subst (λ i. opens password i seen ≡ true) same
        (account-opens password email seen found opened)
  seated-opens password email now seen db v id e known seated (inert n) =
      (let f : true ≡ false = sym (lt→ltb 0 (seats id db) seated) ∙ n in cc)

  -- If an accepted invite seats an account that is in the tables of the transaction and has a seat
  -- there, then the request's password matched the hash of that account in the tables that the
  -- account was read from.
  pub accept_invite-opens :
      (req : AcceptRequest) (reads : Reads) (now : ℕ) (db : StaffDb) {u : AppUser} {tenant : ℕ}
      {after : StaffDb}
      → accept_invite compare req reads now db ≡ (ok (u, tenant), after)
      → any (λ w. w.id == u.id) db.users ≡ true
      → 0 < seats u.id db
      → opens req.password u.id reads.account ≡ true
  unfolding accept_invite
  accept_invite-opens req reads now db {u} {tenant} {after} e known seated =
      elim (Option-cases (find_by_token_hash req.token_hash reads.invite)) [
        | inl n ↦ (let f : (err not_found, db) ≡ (ok (u, tenant), after) = rw n at e in cc)
        | inr (i, found) ↦
            elim (Option-cases
              (verify compare req.password (find_account_by_email i.email reads.account))) [
                | inl n ↦
                    (let f : (err unauthorized, db) ≡ (ok (u, tenant), after) =
                        rw (found, n) at e in
                      cc)
                | inr (v, p) ↦
                    seated-opens req.password i.email now reads.account db v u.id p known seated (
                      reply-user req reads db (Claims db v) _ (accept-Claims now _ db)
                        (rw (found, p) at e))
              ]
      ]
