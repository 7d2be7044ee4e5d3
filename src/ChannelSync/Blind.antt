-- ===== src/ChannelSync/Blind.antt =====
-- A condition that looks at no booking and no conflict, through a sync
-- (apps/api/src/channel-sync/ical-import.service.ts).
use sambung.Common.{ℕ, String, List, [], ◌∷◌}
use sambung.Db.Schema.{Booking, ChannelConnection, SyncConflict, Db}
use sambung.Db.Tx.{modify}
use sambung.Db.Keeps.{Keeps, keeps_rules}
use sambung.ChannelSync.{
  ImportedEvent, file_conflict, refresh_conflict, insert_conflict, cancel_absent, close_healed,
  stamp_ok, mark_error,
}
use sambung.ChannelSync.Keeps.{SyncWrites, any_rows-upserts}

module _ {P : Db → Type 0}
    (any_rows : (bs : List Booking) (db : Db) → P db → P (record db { bookings = bs }))
    (any_conflicts : (cs : List SyncConflict) (db : Db) → P db → P (record db { conflicts = cs }))
    (conn : ChannelConnection) where
  refreshes : (event : ImportedEvent) (now : ℕ) → Keeps P (refresh_conflict conn event now)
  unfolding refresh_conflict
  refreshes event now = record { at = λ db h. any_conflicts _ db h }

  adds : (c : SyncConflict) → Keeps P (modify λ db. record db { conflicts = c ∷ db.conflicts })
  adds c = record { at = λ db h. any_conflicts (c ∷ db.conflicts) db h }

  stores : (c : SyncConflict) → Keeps P (insert_conflict c)
  unfolding insert_conflict
  stores c = search (keeps_rules, adds) depth 6

  files : (row : ℕ) (event : ImportedEvent) (now : ℕ) → Keeps P (file_conflict row conn event now)
  unfolding file_conflict
  files row event now = search (keeps_rules, refreshes, stores) depth 8

  cancels : (events : List ImportedEvent) (db : Db) → P db → P (cancel_absent conn events db)
  unfolding cancel_absent
  cancels [] db h = h
  cancels (e ∷ es) db h = any_rows _ db h

  closes :
      (events : List ImportedEvent) (uids : List String) (now : ℕ) (db : Db)
      → P db
      → P (close_healed conn events uids now db)
  unfolding close_healed
  closes [] uids now db h = h
  closes (e ∷ es) uids now db h = any_conflicts _ db h

  pub blind-SyncWrites :
      ((now : ℕ) (db : Db) → P db → P (stamp_ok conn now db))
      → ((message : String) (db : Db) → P db → P (mark_error conn message db))
      → SyncWrites conn P
  blind-SyncWrites stamps marks = record {
    upserts = any_rows-upserts any_rows conn;
    files = files;
    cancels = cancels;
    closes = closes;
    stamps = stamps;
    marks = marks;
  }
