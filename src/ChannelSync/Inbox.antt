-- ===== src/ChannelSync/Inbox.antt =====
-- The conflict inbox: `recordConflict` and `closeHealed` of ical-import.service.ts and `dismiss` of
-- sync-conflicts.repository.ts (apps/api/src/channel-sync).
use sambung.Common.{
  ℕ, String, Bool, true, false, not, ◌&&◌, Option, none, some, List, [], ◌∷◌, ltb, ◌==◌, str_eq,
  if◌then◌else◌, find, any,
}
use sambung.Db.Tx.{
  committed, violates, sync_conflict_stay_nonempty, sync_conflict_pkey, Error, Tx, ◌>>=◌, ◌>>◌,
  pure, throw, query, modify, guard,
}
use sambung.Db.Schema.{
  dismissed, ChannelConnection, SyncConflict, ConflictStatus, opened, resolved, Db,
}
use sambung.Db.Bookings.{update_where}
use sambung.ChannelSync.Events.{ImportedEvent}

abbrev pub same_conflict : ChannelConnection → String → SyncConflict → Bool
same_conflict conn uid c = c.channel_connection_id == conn.id && str_eq c.external_uid uid

-- A resolved conflict is open again; an open and a dismissed one stay what they are.
abbrev pub redetected : ConflictStatus → ConflictStatus
redetected resolved = opened
redetected s = s

abbrev reopened_at : ConflictStatus → Option ℕ → Option ℕ
reopened_at resolved closed = none
reopened_at _ closed = closed

unfoldable pub redetect : ImportedEvent → ℕ → SyncConflict → SyncConflict
redetect event now c = record c {
  check_in = event.start;
  check_out = event.end;
  last_seen_at = now;
  status = redetected c.status;
  closed_at = reopened_at c.status c.closed_at;
}

abbrev pub new_conflict : ℕ → ChannelConnection → ImportedEvent → ℕ → SyncConflict
new_conflict id conn event now = record {
  id = id;
  tenant_id = conn.tenant_id;
  channel_connection_id = conn.id;
  unit_id = conn.unit_id;
  external_uid = event.uid;
  check_in = event.start;
  check_out = event.end;
  status = opened;
  first_detected_at = now;
  last_seen_at = now;
  closed_at = none;
}

unfoldable pub insert_conflict : SyncConflict → Tx (Unit {0})
insert_conflict c = do
  taken ← query (λ db. any (λ d. d.id == c.id) db.conflicts)
  guard (not taken) (violates sync_conflict_pkey)
  modify λ db. record db { conflicts = c ∷ db.conflicts }

unfoldable pub refresh_conflict : ChannelConnection → ImportedEvent → ℕ → Tx (Unit {0})
unfolding redetect
refresh_conflict conn event now = modify λ db. record db {
  conflicts = update_where (same_conflict conn event.uid) (redetect event now) db.conflicts;
}

-- The INSERT … ON CONFLICT DO UPDATE of `recordConflict`.
unfoldable pub file_conflict : ℕ → ChannelConnection → ImportedEvent → ℕ → Tx (Unit {0})
unfolding insert_conflict refresh_conflict
file_conflict id conn event now = do
  guard (ltb event.start event.end) (violates sync_conflict_stay_nonempty)
  filed ← query (λ db. any (same_conflict conn event.uid) db.conflicts)
  if filed
      then refresh_conflict conn event now
      else insert_conflict (new_conflict id conn event now)

-- `recordConflict`: what it throws is logged.
unfoldable pub record_conflict : ℕ → ChannelConnection → ImportedEvent → ℕ → Db → Db
unfolding file_conflict
record_conflict id conn event now db = committed db (file_conflict id conn event now db)

abbrev pub names_uid : String → List String → Bool
names_uid uid uids = any (λ u. str_eq u uid) uids

abbrev pub is_open : ConflictStatus → Bool
is_open opened = true
is_open _ = false

-- The WHERE of `closeHealed`.
unfoldable pub is_healed : ChannelConnection → List String → SyncConflict → Bool
is_healed conn not_imported c =
    c.channel_connection_id == conn.id
    && c.tenant_id == conn.tenant_id
    && is_open c.status
    && not (names_uid c.external_uid not_imported)

unfoldable pub close_healed : ChannelConnection → List ImportedEvent → List String → ℕ → Db → Db
unfolding is_healed
close_healed conn [] not_imported now db = db
close_healed conn (e ∷ es) not_imported now db = record db {
  conflicts =
      update_where (is_healed conn not_imported)
        (λ c. record c { status = resolved; closed_at = some now }) db.conflicts;
}

-- The WHERE of `dismiss`.
unfoldable pub is_dismissable : ℕ → ℕ → SyncConflict → Bool
is_dismissable tenant id c = c.id == id && c.tenant_id == tenant && is_open c.status

abbrev pub dismiss_reply : Option SyncConflict → Tx (ConflictStatus × Option ℕ)
dismiss_reply none = throw Error.not_found
dismiss_reply (some c) = pure (c.status, c.closed_at)

-- Both reads of the row after the UPDATE are the one row of that id.
unfoldable pub dismiss : ℕ → ℕ → ℕ → Tx (ConflictStatus × Option ℕ)
unfolding is_dismissable
dismiss tenant now id = do
  modify λ db. record db {
    conflicts =
        update_where (is_dismissable tenant id)
          (λ c. record c { status = dismissed; closed_at = some now }) db.conflicts;
  }
  existing ← query (λ db. find (λ c. c.id == id && c.tenant_id == tenant) db.conflicts)
  dismiss_reply existing
