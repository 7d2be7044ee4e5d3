-- ===== src/Staff/Once.antt =====
-- The two tests of a live invite, and an invite is spent once: apps/api/src/staff/invite-liveness.ts and
-- the guarded update of invite-accept.repository.ts.
use sambung.Common.{
  ℕ, ◌≤◌, ◌≡◌, ◌↔◌, refl, true, false, none, List, [], ◌∷◌, leb, str_eq, Bool-cases, inl, inr,
  arith, find, any, find-none, Option-cases, subst, sym, ap, ◌∙◌,
}
use sambung.Db.Bookings.{update_where}
use sambung.Staff.Schema.{StaffInvite, StaffDb, AppUser}
use sambung.Staff.Invites.{refusal_reason, is_live}
use sambung.Staff.Accept.{
  Spend, accepted, not_live, is_spendable, spend_at, spent, accept, resolve_account, granted, Claim,
  claimed, must_prove, taken, grant,
}
use sambung.Staff.Keeps.{claimed_db, resolve_account-invites}

-- `refusalReason` names no reason exactly for the invites that the database's test of a live
-- invite accepts at the same time.
pub refusal_reason_iff :
    (i : StaffInvite) (now : ℕ) → (refusal_reason i now ≡ none) ↔ (is_live now i ≡ true)
unfolding refusal_reason is_live
refusal_reason_iff i now = elim (Option-cases i.accepted_at) [
  | inr (t, a) ↦ rw a (λ e. cc, λ e. cc)
  | inl a ↦ elim (Option-cases i.revoked_at) [
    | inr (t, r) ↦
        rw (a, r)
          (elim (Bool-cases (leb i.expires_at now)) [
            | inl late ↦ rw late (λ e. cc, λ e. cc)
            | inr early ↦ rw early (λ e. cc, λ e. cc)
          ])
    | inl r ↦
        rw (a, r)
          (elim (Bool-cases (leb i.expires_at now)) [
            | inl late ↦ rw late (λ e. cc, λ e. ground arith)
            | inr early ↦ rw early (λ e. ground arith, λ e. refl)
          ])
  ]
]

is_spendable-later :
    (now later id stamp : ℕ) (is : List StaffInvite)
    → now ≤ later
    → any (is_spendable later id) (update_where (is_spendable now id) (spend_at stamp) is) ≡ false
unfolding is_live
is_spendable-later now later id stamp [] h = refl
is_spendable-later now later id stamp (i ∷ is) h =
    ground (arith, is_spendable-later now later id stamp is h)

granted-invites :
    (i : StaffInvite) (mid : StaffDb) (c : Claim) {u : AppUser} {tenant : ℕ} {after : StaffDb}
    → granted i c ≡ accepted u tenant after
    → after.invites ≡ (claimed_db mid c).invites
unfolding grant
granted-invites i mid (claimed w d) {u} {tenant} {after} e =
    let same : after ≡ grant i w d = cc in ap (λ z. z.invites) same
granted-invites i mid must_prove e = cc
granted-invites i mid taken e = cc

-- Once an invite is accepted, a transaction that accepts it at the same or a later time, of
-- whatever account, finds it not live.
pub accept-once :
    (now later : ℕ) (s again : Spend) (db : StaffDb) {u : AppUser} {tenant : ℕ} {after : StaffDb}
    → now ≤ later
    → again.invite_id ≡ s.invite_id
    → accept now s db ≡ accepted u tenant after
    → accept later again after ≡ not_live
unfolding accept spent
accept-once now later s again db {u} {tenant} {after} le same e =
    elim (Option-cases (find (is_spendable now s.invite_id) db.invites)) [
      | inl n ↦ (let f : not_live ≡ accepted u tenant after = rw n at e in cc)
      | inr (i, found) ↦
          let mid : StaffDb = record db {
            invites = update_where (is_spendable now s.invite_id) (spend_at s.stamp) db.invites;
          } in
          let account = find (λ u. str_eq u.email i.email) db.users in
          let f : granted i (resolve_account s i.email mid account) ≡ accepted u tenant after =
            rw found at e in
          let rows : after.invites ≡ mid.invites =
            granted-invites i mid _ f ∙ resolve_account-invites s i.email mid account in
          let none_left : any (is_spendable later s.invite_id) after.invites ≡ false =
            subst (λ is. any (is_spendable later s.invite_id) is ≡ false) (sym rows)
              (is_spendable-later now later s.invite_id s.stamp db.invites le) in
          rw (same, find-none (is_spendable later s.invite_id) after.invites none_left) refl
    ]
