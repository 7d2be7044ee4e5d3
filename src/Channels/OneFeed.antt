-- ===== src/Channels/OneFeed.antt =====
-- A sync writes no feed of its own (apps/api/src/channel-sync/ical-import.service.ts).
use sambung.ChannelSync.Blind.{blind-SyncWrites}
use sambung.Common.{
  ℕ, ◌≡◌, refl, ◌∙◌, Bool, false, none, some, List, [], ◌∷◌, any, any-select-false, select, map,
  Bool-cases, inl, inr, if◌then◌else◌,
}
use sambung.Db.Schema.{BookingSource, ChannelConnection, SyncStatus, Db}
use sambung.Db.Bookings.{update_where}
use sambung.ChannelSync.{stamp_ok, mark_error}
use sambung.ChannelSync.Keeps.{SyncWrites}
use sambung.Channels.{is_feed, is_connection_of}

-- `channel_connection_unit_channel_uniq`: a unit has at most one feed of a channel.
abbrev pub OneFeed : List ChannelConnection → Type 0
OneFeed [] = Unit
OneFeed (c ∷ cs) = (any (is_feed c.unit_id c.channel) cs ≡ false) × OneFeed cs

abbrev HasOneFeed : Db → Type 0
HasOneFeed db = OneFeed db.connections

module _ (f : ChannelConnection → ChannelConnection)
    (units : (c : ChannelConnection) → (f c).unit_id ≡ c.unit_id)
    (channels : (c : ChannelConnection) → (f c).channel ≡ c.channel) where
  any-feed :
      (unit : ℕ) (channel : BookingSource) (cs : List ChannelConnection)
      → any (is_feed unit channel) (map f cs) ≡ any (is_feed unit channel) cs
  any-feed unit channel [] = refl
  any-feed unit channel (c ∷ cs) = rw (units c, channels c, any-feed unit channel cs) refl

  map-OneFeed : (cs : List ChannelConnection) → OneFeed cs → OneFeed (map f cs)
  map-OneFeed [] h = tt
  map-OneFeed (c ∷ cs) h =
      (rw (units c, channels c) (any-feed c.unit_id c.channel cs ∙ h.0), map-OneFeed cs h.1)

if_keeps :
    {B : Type 0} (p : ChannelConnection → Bool) (f : ChannelConnection → ChannelConnection)
    (key : ChannelConnection → B)
    → ((c : ChannelConnection) → key (f c) ≡ key c)
    → (c : ChannelConnection) → key (if p c then f c else c) ≡ key c
if_keeps p f key same c = elim (Bool-cases (p c)) [ inl y ↦ rw y (same c) | inr n ↦ rw n refl ]

update-OneFeed :
    (p : ChannelConnection → Bool) (f : ChannelConnection → ChannelConnection)
    → ((c : ChannelConnection) → (f c).unit_id ≡ c.unit_id)
    → ((c : ChannelConnection) → (f c).channel ≡ c.channel)
    → (cs : List ChannelConnection) → OneFeed cs
    → OneFeed (update_where p f cs)
update-OneFeed p f units channels cs h =
    map-OneFeed _ (if_keeps p f (λ c. c.unit_id) units) (if_keeps p f (λ c. c.channel) channels) cs
      h

pub select-OneFeed :
    (q : ChannelConnection → Bool) (cs : List ChannelConnection)
    → OneFeed cs
    → OneFeed (select q cs)
select-OneFeed q [] h = tt
select-OneFeed q (c ∷ cs) h = elim (Bool-cases (q c)) [
  | inl y ↦ rw y (any-select-false (is_feed c.unit_id c.channel) q cs h.0, select-OneFeed q cs h.1)
  | inr n ↦ rw n (select-OneFeed q cs h.1)
]

pub OneFeed-SyncWrites : (conn : ChannelConnection) → SyncWrites conn HasOneFeed
unfolding stamp_ok mark_error
OneFeed-SyncWrites conn =
    blind-SyncWrites (λ bs db h. h) (λ cs db h. h) conn
      (λ now db h.
        update-OneFeed (is_connection_of conn.tenant_id conn.id)
          (λ c. record c {
            last_status = SyncStatus.ok;
            last_synced_at = some now;
            last_error = none;
          })
          (λ c. refl) (λ c. refl) db.connections h)
      (λ message db h.
        update-OneFeed (is_connection_of conn.tenant_id conn.id)
          (λ c. record c { last_status = SyncStatus.error; last_error = some message }) (λ c. refl)
          (λ c. refl) db.connections h)
