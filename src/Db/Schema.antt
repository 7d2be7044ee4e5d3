-- ===== src/Db/Schema.antt =====
-- packages/db/src/schema.ts: the enums and the rows of the tables that the modelled code reads or
-- writes. A uuid is a number, a moment is its milliseconds, a date its day number; `bigint` money is
-- not negative, by the CHECK constraints.
use sambung.Common.{ℕ, String, Bool, true, false, Option, List}

pub data BookingStatus : Type 0 where
  pending_payment confirmed cancelled expired : BookingStatus

-- `OCCUPYING_STATUSES`
unfoldable pub occupying : BookingStatus → Bool
occupying pending_payment = true
occupying confirmed = true
occupying cancelled = false
occupying expired = false

abbrev pub is_pending : BookingStatus → Bool
is_pending pending_payment = true
is_pending _ = false

abbrev pub is_confirmed : BookingStatus → Bool
is_confirmed confirmed = true
is_confirmed _ = false

pub data BookingSource : Type 0 where
  direct airbnb booking_com vrbo manual_block : BookingSource

pub data PaymentStatus : Type 0 where
  pending paid failed : PaymentStatus

abbrev pub is_unpaid : PaymentStatus → Bool
is_unpaid pending = true
is_unpaid _ = false

abbrev pub is_paid : PaymentStatus → Bool
is_paid paid = true
is_paid _ = false

pub data SyncStatus : Type 0 where
  never ok error : SyncStatus

-- `opened` is the source's `open`.
pub data ConflictStatus : Type 0 where
  opened resolved dismissed : ConflictStatus

pub record Property : Type 0 where
  pub id : ℕ
  pub tenant_id : ℕ
  pub time_zone : String
  pub deposit_pct : ℕ
  pub archived_at : Option ℕ

pub record UnitRow : Type 0 where
  pub id : ℕ
  pub tenant_id : ℕ
  pub property_id : ℕ
  pub base_price_idr : ℕ
  pub max_guests : ℕ
  pub min_stay : ℕ
  pub archived_at : Option ℕ

pub record PriceOverride : Type 0 where
  pub id : ℕ
  pub unit_id : ℕ
  pub tenant_id : ℕ
  pub from_date : ℕ
  pub to_date : ℕ
  pub nightly_price_idr : ℕ

pub record Booking : Type 0 where
  pub id : ℕ
  pub tenant_id : ℕ
  pub unit_id : ℕ
  pub source : BookingSource
  pub status : BookingStatus
  pub check_in : ℕ
  pub check_out : ℕ
  pub guest_name : Option String
  pub guest_phone : Option String
  pub guest_email : Option String
  pub guest_count : Option ℕ
  pub total_price_idr : Option ℕ
  pub external_uid : Option String
  pub channel_connection_id : Option ℕ
  pub hold_expires_at : Option ℕ

-- `session` is `raw_payload`: the token and the redirect URL of the open session.
pub record Payment : Type 0 where
  pub id : ℕ
  pub booking_id : ℕ
  pub provider : String
  pub amount_idr : ℕ
  pub status : PaymentStatus
  pub session : Option (String × String)
  pub created_at : ℕ

pub record PaymentEvent : Type 0 where
  pub provider : String
  pub provider_event_id : String
  pub booking_id : ℕ

pub record ChannelConnection : Type 0 where
  pub id : ℕ
  pub unit_id : ℕ
  pub tenant_id : ℕ
  pub channel : BookingSource
  pub import_ical_url : String
  pub last_synced_at : Option ℕ
  pub last_status : SyncStatus
  pub last_error : Option String
  pub created_at : ℕ

pub record SyncConflict : Type 0 where
  pub id : ℕ
  pub tenant_id : ℕ
  pub channel_connection_id : ℕ
  pub unit_id : ℕ
  pub external_uid : String
  pub check_in : ℕ
  pub check_out : ℕ
  pub status : ConflictStatus
  pub first_detected_at : ℕ
  pub last_seen_at : ℕ
  pub closed_at : Option ℕ

pub record Db : Type 0 where
  pub properties : List Property
  pub units : List UnitRow
  pub price_overrides : List PriceOverride
  pub bookings : List Booking
  pub payments : List Payment
  pub payment_events : List PaymentEvent
  pub connections : List ChannelConnection
  pub conflicts : List SyncConflict
  -- the tenants with a stored payment credential
  pub credentials : List ℕ
  -- those of them whose credential the configured key does not open
  pub sealed : List ℕ
