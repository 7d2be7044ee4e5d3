-- ===== src/Staff/Accept.antt =====
-- Spending an invite: `accept` of apps/api/src/staff/invite-accept.repository.ts and of
-- invites.service.ts. The statements of the transaction run on one state of the tables, which the
-- guarded update and the row lock see to; the reads around it may each see another. The comparison of
-- a password with its hash is a parameter.
use sambung.Common.{
  ℕ, String, Bool, false, ◌&&◌, Option, none, some, List, [], ◌∷◌, ltb, ◌==◌, str_eq, if◌then◌else◌,
  find, any, select,
}
use sambung.Db.Bookings.{update_where}
use sambung.Staff.Schema.{
  AppUser, Membership, StaffInvite, StaffInviteProperty, UserProperty, StaffDb, staff, has_seat,
}
use sambung.Staff.Invites.{
  InviteAcceptMode, is_live, seats, StaffResult, ok, err, not_found, unauthorized,
  internal_server_error, invite_not_acceptable, InviteRefusalReason, expired, refusal_reason,
  signin, create, AccountForInvite, invite_accept_mode_for, find_by_token_hash,
  find_account_by_email,
}

-- The input of the repository's `accept`, with the uuid that a new account gets and the server's time.
pub record Spend : Type 0 where
  pub invite_id : ℕ
  pub password_hash : String
  pub verified_user_id : Option ℕ
  pub new_user_id : ℕ
  pub stamp : ℕ

-- The account that the seat goes to, or why there is none.
pub data Claim : Type 0 where
  claimed : AppUser → StaffDb → Claim
  must_prove taken : Claim

-- Where the transaction is rolled back there is no next state.
pub data Spending : Type 0 where
  accepted : AppUser → ℕ → StaffDb → Spending
  not_live password_required duplicate_account : Spending

abbrev pub is_spendable : ℕ → ℕ → StaffInvite → Bool
is_spendable now id i = i.id == id && is_live now i

abbrev pub spend_at : ℕ → StaffInvite → StaffInvite
spend_at stamp i = record i { accepted_at = some stamp }

abbrev pub is_id : Option ℕ → ℕ → Bool
is_id none id = false
is_id (some v) id = v == id

abbrev pub set_password : String → AppUser → AppUser
set_password hash u = record u { password_hash = hash }

unfoldable pub create_account : Spend → String → StaffDb → Claim
create_account s email db =
    if any (λ u. u.id == s.new_user_id) db.users
    then taken
    else (let user : AppUser = record {
      id = s.new_user_id;
      email = email;
      password_hash = s.password_hash;
    } in
        claimed user (record db { users = user ∷ db.users }))

unfoldable pub reclaim_account : Spend → AppUser → StaffDb → Claim
reclaim_account s u db =
    claimed (set_password s.password_hash u) (record db {
      users = update_where (λ v. v.id == u.id) (set_password s.password_hash) db.users;
    })

-- A verified account, one without seats, or a new one.
unfoldable pub resolve_account : Spend → String → StaffDb → Option AppUser → Claim
unfolding create_account reclaim_account seats
resolve_account s email db none = create_account s email db
resolve_account s email db (some u) =
    if is_id s.verified_user_id u.id
    then claimed u db
    else if ltb 0 (seats u.id db)
    then must_prove
    else reclaim_account s u db

-- `onConflictDoNothing`
unfoldable pub add_seat : ℕ → ℕ → List Membership → List Membership
add_seat user tenant ms =
    if has_seat user tenant ms
    then ms
    else record { app_user_id = user; tenant_id = tenant; role = staff } ∷ ms

-- A row of the primary key (user, property) stays.
unfoldable pub add_assignments :
    ℕ → List StaffInviteProperty → List UserProperty → List UserProperty
add_assignments user [] ups = ups
add_assignments user (p ∷ ps) ups =
    let rest = add_assignments user ps ups in
    if any (λ a. a.app_user_id == user && a.property_id == p.property_id) rest
    then rest
    else record { app_user_id = user; property_id = p.property_id; tenant_id = p.tenant_id } ∷ rest

unfoldable pub grant : StaffInvite → AppUser → StaffDb → StaffDb
unfolding add_seat add_assignments
grant i u db = record db {
  memberships = add_seat u.id i.tenant_id db.memberships;
  user_properties =
      add_assignments u.id (select (λ p. p.invite_id == i.id) db.invite_properties)
        db.user_properties;
}

abbrev pub granted : StaffInvite → Claim → Spending
granted i (claimed u db) = accepted u i.tenant_id (grant i u db)
granted i must_prove = password_required
granted i taken = duplicate_account

unfoldable pub spent : ℕ → Spend → StaffDb → Option StaffInvite → Spending
unfolding resolve_account
spent now s db none = not_live
spent now s db (some i) = granted i (
    resolve_account s i.email
      (record db {
        invites = update_where (is_spendable now s.invite_id) (spend_at s.stamp) db.invites;
      })
      (find (λ u. str_eq u.email i.email) db.users))

-- `InviteAcceptRepository.accept`
unfoldable pub accept : ℕ → Spend → StaffDb → Spending
unfolding is_live
accept now s db = spent now s db (find (is_spendable now s.invite_id) db.invites)

pub record AcceptRequest : Type 0 where
  pub token_hash : String
  pub password : String
  pub password_hash : String
  pub new_user_id : ℕ
  pub stamp : ℕ

-- What the reads outside the transaction see.
pub record Reads : Type 0 where
  pub invite : StaffDb
  pub account : StaffDb
  pub again : StaffDb
  pub again_now : ℕ

-- What is true now, of the invite that could not be spent.
abbrev refusal_now : ℕ → Option StaffInvite → Option InviteRefusalReason
refusal_now now none = none
refusal_now now (some i) = refusal_reason i now

abbrev or_expired : Option InviteRefusalReason → InviteRefusalReason
or_expired none = expired
or_expired (some reason) = reason

abbrev pub accept_reply : Reads → String → StaffDb → Spending → StaffResult (AppUser × ℕ) × StaffDb
accept_reply reads hash db (accepted u tenant after) = (ok (u, tenant), after)
accept_reply reads hash db password_required = (err unauthorized, db)
accept_reply reads hash db duplicate_account = (err internal_server_error, db)
accept_reply reads hash db not_live = (
  err (
      invite_not_acceptable
        (or_expired (refusal_now reads.again_now (find_by_token_hash hash reads.again)))),
  db,
)

module _ (compare : String → String → Bool) where
  -- The id that the password was checked against, none where there is none to check, no answer where
  -- it does not match.
  abbrev pub verify_as : String → Option AccountForInvite → InviteAcceptMode → Option (Option ℕ)
  verify_as password existing create = some none
  verify_as password none signin = none
  verify_as password (some a) signin =
      if compare password a.password_hash then some (some a.id) else none

  unfoldable pub verify : String → Option AccountForInvite → Option (Option ℕ)
  unfolding invite_accept_mode_for
  verify password existing = verify_as password existing (invite_accept_mode_for existing)

  abbrev accept_verified :
      AcceptRequest
      → Reads
      → ℕ
      → StaffInvite
      → StaffDb
      → Option (Option ℕ)
      → StaffResult (AppUser × ℕ) × StaffDb
  accept_verified req reads now i db none = (err unauthorized, db)
  accept_verified req reads now i db (some verified) = accept_reply reads req.token_hash db (
      accept now
        (record {
          invite_id = i.id;
          password_hash = req.password_hash;
          verified_user_id = verified;
          new_user_id = req.new_user_id;
          stamp = req.stamp;
        })
        db)

  abbrev accept_found :
      AcceptRequest → Reads → ℕ → StaffDb → Option StaffInvite → StaffResult (AppUser × ℕ) × StaffDb
  accept_found req reads now db none = (err not_found, db)
  accept_found req reads now db (some i) =
      accept_verified req reads now i db
        (verify req.password (find_account_by_email i.email reads.account))

  -- `InvitesService.accept`: the user and the tenant whose session starts.
  unfoldable pub accept_invite :
      AcceptRequest → Reads → ℕ → StaffDb → StaffResult (AppUser × ℕ) × StaffDb
  unfolding accept verify find_account_by_email find_by_token_hash refusal_reason
  accept_invite req reads now db =
      accept_found req reads now db (find_by_token_hash req.token_hash reads.invite)
