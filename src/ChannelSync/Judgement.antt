-- ===== src/ChannelSync/Judgement.antt =====
-- The owner's judgement stands (apps/api/src/channel-sync/ical-import.service.ts and
-- sync-conflicts.repository.ts).
use sambung.Common.{
  find-none, sym, ==_iff, find-map, some_inj, option_map, ℕ, ◌≡◌, refl, ap, inl, inr, String, Bool,
  true, false, not, Option, none, some, List, [], ◌∷◌, ◌==◌, if◌then◌else◌, find, any, arith,
  Bool-cases,
}
use sambung.Db.Tx.{committed, violates, sync_conflict_pkey, ◌>>◌, modify, guard}
use sambung.Db.Schema.{SyncConflict, ConflictStatus, dismissed, ChannelConnection, Db}
use sambung.Db.Keeps.{Keeps, keeps_rules}
use sambung.Db.Bookings.{update_where}
use sambung.ChannelSync.{
  refresh_conflict, insert_conflict, ImportedEvent, same_conflict, redetected, redetect,
  file_conflict, is_open, is_healed, cancel_absent, close_healed, stamp_ok, mark_error, ParseResult,
  Fetched, sync_connection,
}
use sambung.ChannelSync.Keeps.{any_rows-upserts, SyncWrites, sync_connection-keeps}

abbrev pub conflict_status : ℕ → Db → Option ConflictStatus
conflict_status id db = option_map (λ c. c.status) (find (λ c. c.id == id) db.conflicts)

-- The conflict of that id is dismissed.
abbrev pub IsDismissed : ℕ → Db → Type 0
IsDismissed id db = conflict_status id db ≡ some dismissed

-- An update that leaves dismissed rows dismissed.
updated-IsDismissed :
    (id : ℕ) (q : SyncConflict → Bool) (f : SyncConflict → SyncConflict) (cs : List SyncConflict)
    → ((c : SyncConflict) → (f c).id ≡ c.id)
    → ((c : SyncConflict) → q c ≡ true → c.status ≡ dismissed → (f c).status ≡ dismissed)
    → option_map (λ c. c.status) (find (λ c. c.id == id) cs) ≡ some dismissed
    → option_map (λ c. c.status) (find (λ c. c.id == id) (update_where q f cs)) ≡ some dismissed
updated-IsDismissed id q f cs same kept h =
    rw (find-map (λ c. c.id == id) (λ c. if q c then f c else c) same_id cs)
      (found (find (λ c. c.id == id) cs) h)
  where
    same_id : (c : SyncConflict) → ((if q c then f c else c).id == id) ≡ (c.id == id)
    same_id c = elim (Bool-cases (q c)) [
      | inl y ↦ rw y (ap (λ n. n == id) (same c))
      | inr n ↦ rw n refl
    ]

    found :
        (o : Option SyncConflict)
        → option_map (λ c. c.status) o ≡ some dismissed
        → option_map (λ c. c.status) (option_map (λ c. if q c then f c else c) o) ≡ some dismissed
    found none e = e
    found (some c) e = elim (Bool-cases (q c)) [
      | inl y ↦ rw y (ap some (kept c y (some_inj.0 e)))
      | inr n ↦ rw n e
    ]

redetected-dismissed : (s : ConflictStatus) → s ≡ dismissed → redetected s ≡ dismissed
redetected-dismissed s e = rw e refl

module _ (conn : ChannelConnection) (id : ℕ) where
  refreshes :
      (event : ImportedEvent) (now : ℕ) → Keeps (IsDismissed id) (refresh_conflict conn event now)
  unfolding refresh_conflict redetect
  refreshes event now = record {
    at = λ db h.
        updated-IsDismissed id (same_conflict conn event.uid) _ db.conflicts (λ c. refl)
          (λ c y e. redetected-dismissed c.status e) h;
  }

  stores : (c : SyncConflict) → Keeps (IsDismissed id) (insert_conflict c)
  unfolding insert_conflict
  stores c = record { at = λ db h. stored db (any (λ d. d.id == c.id) db.conflicts) refl h }
    where
      stored :
          (db : Db) (taken : Bool)
          → any (λ d. d.id == c.id) db.conflicts ≡ taken
          → IsDismissed id db
          → IsDismissed id (
              committed db (
                (guard (not taken) (violates sync_conflict_pkey)
                    >> modify λ d. record d { conflicts = c ∷ d.conflicts })
                  db))
      stored db true e h = h
      stored db false e h = elim (Bool-cases (c.id == id)) [
        | inl y ↦
            let gone : find (λ d. d.id == id) db.conflicts ≡ none =
              find-none (λ d. d.id == id) db.conflicts (rw (sym ((==_iff c.id id).0 y)) e) in
            let e' : none ≡ some dismissed = rw gone at h in cc
        | inr n ↦ rw n h
      ]

  files :
      (row : ℕ) (event : ImportedEvent) (now : ℕ)
      → Keeps (IsDismissed id) (file_conflict row conn event now)
  unfolding file_conflict
  files row event now = search (keeps_rules, refreshes, stores) depth 8

  cancels :
      (events : List ImportedEvent) (db : Db)
      → IsDismissed id db
      → IsDismissed id (cancel_absent conn events db)
  unfolding cancel_absent
  cancels [] db h = h
  cancels (e ∷ es) db h = h

  open_only :
      (c : SyncConflict)
      → is_open c.status ≡ true
      → c.status ≡ dismissed
      → {s : ConflictStatus} → s ≡ dismissed
  open_only c y e = (let e' : false ≡ true = rw e at y in cc)

  closes :
      (events : List ImportedEvent) (uids : List String) (now : ℕ) (db : Db)
      → IsDismissed id db
      → IsDismissed id (close_healed conn events uids now db)
  unfolding close_healed is_healed
  closes [] uids now db h = h
  closes (e ∷ es) uids now db h =
      updated-IsDismissed id (is_healed conn uids) _ db.conflicts (λ c. refl)
        (λ c y e. open_only c (ground (arith, y)) e) h

  IsDismissed-SyncWrites : SyncWrites conn (IsDismissed id)
  unfolding stamp_ok mark_error
  IsDismissed-SyncWrites = record {
    upserts = any_rows-upserts (λ bs db h. h) conn;
    files = files;
    cancels = cancels;
    closes = closes;
    stamps = λ now db h. h;
    marks = λ message db h. h;
  }

  -- A conflict that is dismissed is still dismissed after a pull of any feed, whether the pull
  -- detects it again, finds it healed, or fails.
  pub sync_connection-dismissed :
      {Body : Type 0} (fetch_feed : String → Fetched Body)
      (parse_calendar : Body → String → ParseResult) (now : ℕ) (ids : ℕ → ℕ) (db : Db)
      → conflict_status id db ≡ some dismissed
      → conflict_status id (sync_connection fetch_feed parse_calendar conn now ids db).1
        ≡ some dismissed
  sync_connection-dismissed fetch_feed parse_calendar now ids db h =
      sync_connection-keeps IsDismissed-SyncWrites fetch_feed parse_calendar now ids db h
