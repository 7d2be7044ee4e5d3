-- ===== src/ChannelSync/Dismissal.antt =====
-- `dismiss` is asked again (apps/api/src/channel-sync/sync-conflicts.repository.ts).
use sambung.Common.{ℕ, ◌≡◌, sym, subst, false, Option, none, some, arith}
use sambung.Db.Tx.{ok}
use sambung.Db.Schema.{SyncConflict, ConflictStatus, dismissed, Db}
use sambung.Db.Bookings.{update_where}
use sambung.Common.{update-none, any-update}
use sambung.ChannelSync.{is_dismissable, dismiss_reply, dismiss}

module _ (tenant id : ℕ) where
  abbrev close : ℕ → SyncConflict → SyncConflict
  close now c = record c { status = dismissed; closed_at = some now }

  close_row : (now : ℕ) (c : SyncConflict) → is_dismissable tenant id (close now c) ≡ false
  unfolding is_dismissable
  close_row now c = ground arith

  reply_only :
      (o : Option SyncConflict) (db : Db) {r : ConflictStatus × Option ℕ} {after : Db}
      → dismiss_reply o db ≡ ok (r, after)
      → after ≡ db
  reply_only none db e = cc
  reply_only (some c) db e = cc

  -- A dismissal that was answered and is asked again, at any later time, gives the same answer and
  -- changes nothing.
  pub dismiss_again :
      (now later : ℕ) (db : Db) {r : ConflictStatus × Option ℕ} {after : Db}
      → dismiss tenant now id db ≡ ok (r, after)
      → dismiss tenant later id after ≡ ok (r, after)
  unfolding dismiss
  dismiss_again now later db {r} {after} e =
      let closed : Db = record db {
        conflicts = update_where (is_dismissable tenant id) (close now) db.conflicts;
      } in
      let same : after ≡ closed = reply_only _ closed e in
      subst (λ d. dismiss tenant later id d ≡ ok (r, d)) (sym same)
        (rw
          (update-none (is_dismissable tenant id) (close later) closed.conflicts (
            any-update _ (is_dismissable tenant id) (close now) (close_row now) (λ c h. h)
              db.conflicts))
          (subst (λ d. dismiss tenant now id db ≡ ok (r, d)) same e))
