-- ===== src/Payments/Pay/Session.antt =====
-- The session that a `pay` leaves open (apps/api/src/payments/payments.repository.ts).
use sambung.Common.Int.{pos}
use sambung.Availability.{to_rupiah}
use sambung.Common.{ℕ, ◌≡◌, refl, String, Bool, not, Option, none, some, ◌∷◌, ◌==◌, any, ==_iff}
use sambung.Db.Tx.{Result, ok, err, lift}
use sambung.Db.Schema.{Payment, PaymentStatus, Db}
use sambung.Db.Keeps.{>>=-eq-ok}
use sambung.Db.Inversion.{guard-inv, lift-inv}
use sambung.Payments.{GatewayCredential, Gateway, PaymentSession, deposit_amount_idr}
use sambung.Payments.Pay.{
  PayContext, OpenSession, PaymentSessionResponse, newest, pick_newest, open_payments, session_of,
  open_session, find_open_session, insert_payment_with_session, to_response, mint, reuse_or_mint,
}

-- The booking's open session, its frame, and tables that differ in the payments alone.
pub record LeavesOpen (is_url : String → Bool) (booking total : ℕ) (db : Db)
    (r : PaymentSessionResponse) (after : Db) : Type 0 where
  pub session : OpenSession
  pub stays_open : find_open_session booking after ≡ ok (some session)
  pub framed : to_response is_url session total ≡ ok r
  pub only_payments : after ≡ record db { payments = after.payments }

lift-eq :
    {A : Type 0} (x : Result A) (db : Db) {a : A} {m : Db}
    → lift x db ≡ ok (a, m)
    → (x ≡ ok a) × (m ≡ db)
lift-eq (ok b) db e = (cc, cc)
lift-eq (err z) db e = cc

none_open : (o : Option Payment) → session_of o ≡ ok none → o ≡ none
unfolding session_of
none_open none e = refl
none_open (some p) e = corrupt p.session e
  where
    corrupt : (s : Option (String × String)) → open_session p s ≡ ok none → some p ≡ none
    corrupt none e = cc
    corrupt (some t) e = cc

-- A new pending payment of a booking that has none is the newest.
minted_open :
    (id booking amount created_at : ℕ) (provider token redirect_url : String) (db : Db)
    → find_open_session booking db ≡ ok none
    → find_open_session booking (record db {
      payments =
          record {
            id = id;
            booking_id = booking;
            provider = provider;
            amount_idr = amount;
            status = PaymentStatus.pending;
            session = some (token, redirect_url);
            created_at = created_at;
          }
          ∷ db.payments;
    })
      ≡ ok (
          some (record {
            provider = provider;
            amount_idr = amount;
            token = token;
            redirect_url = redirect_url;
          }))
unfolding find_open_session pick_newest open_session
minted_open id booking amount created_at provider token redirect_url db empty =
    rw ((==_iff booking booking).1 refl) (rw (none_open (newest (open_payments booking db)) empty))

module _ {Body : Type 0} (gateway : Gateway Body) (is_url : String → Bool)
    (now new_id booking : ℕ) where
  mint-LeavesOpen :
      (c : GatewayCredential) (ctx : PayContext) (total : ℕ) (db : Db) {r : PaymentSessionResponse}
      {after : Db}
      → find_open_session booking db ≡ ok none
      → mint gateway is_url now new_id booking c ctx total db ≡ ok (r, after)
      → LeavesOpen is_url booking total db r after
  unfolding mint insert_payment_with_session
  mint-LeavesOpen c ctx total db empty e =
      let (charged, e0, e1) =
        lift-inv (to_rupiah (pos (deposit_amount_idr total ctx.deposit_pct))) _ db e in
      let (session, e2, e3) =
        lift-inv (gateway.create_session (record { order_id = new_id; amount_idr = charged }) c) _
          db e1 in
      let (u, mid, e4, e5) = >>=-eq-ok (insert_payment_with_session (minted session)) _ db e3 in
      let (free, e6) = guard-inv (not (any (λ q. q.id == new_id) db.payments)) _ _ db e4 in
      let stored : mid ≡ record db { payments = minted session ∷ db.payments } = cc in
      let (framed, same) = lift-eq _ mid e5 in
      record {
        session = _;
        stays_open =
            rw (same, stored)
              (minted_open new_id booking (deposit_amount_idr total ctx.deposit_pct) now
                gateway.provider session.token session.redirect_url db empty);
        framed = framed;
        only_payments = rw (same, stored) refl;
      }
    where
      minted : PaymentSession → Payment
      minted session = record {
        id = new_id;
        booking_id = booking;
        provider = gateway.provider;
        amount_idr = deposit_amount_idr total ctx.deposit_pct;
        status = PaymentStatus.pending;
        session = some (session.token, session.redirect_url);
        created_at = now;
      }

  pub reuse_or_mint-LeavesOpen :
      (c : GatewayCredential) (ctx : PayContext) (total : ℕ) (o : Option OpenSession) (db : Db)
      {r : PaymentSessionResponse} {after : Db}
      → find_open_session booking db ≡ ok o
      → reuse_or_mint gateway is_url now new_id booking c ctx total o db ≡ ok (r, after)
      → LeavesOpen is_url booking total db r after
  unfolding reuse_or_mint
  reuse_or_mint-LeavesOpen c ctx total none db opened e = mint-LeavesOpen c ctx total db opened e
  reuse_or_mint-LeavesOpen c ctx total (some s) db opened e =
      let (framed, same) = lift-eq (to_response is_url s total) db e in
      record {
        session = s;
        stays_open = rw same opened;
        framed = framed;
        only_payments = rw same refl;
      }
