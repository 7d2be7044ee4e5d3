-- ===== src/Lib.antt =====
-- Sambung: direct bookings of villas, with payments by a provider and the calendars of the booking
-- channels kept in sync. The library models the API's core (apps/api) with the arithmetic that it shares
-- with the web app (packages/shared) and the tables and constraints that it rests on (packages/db).
--
-- The parts, and how they meet:
--   Stay            packages/shared/src/availability.ts: nights, the price of a stay, merged ranges.
--   Db              packages/db: Schema has the rows, Tx the transactions (a function from the tables to
--                   a value and new tables, or an error with the tables as before), Bookings the constraints
--                   on the booking table and the INSERT that they guard, Overlap what they keep true.
--   Availability    apps/api/src/bookings/availability.{service,repository}.ts: the quote.
--   Booking         apps/api/src/bookings/bookings.{service,repository}.ts and hold-sweeper.service.ts:
--                   createPublicBooking is create_public_booking, sweepQuoteOrThrow is
--                   sweep_quote_or_throw, insertHold is insert_hold, and so on by the source's names.
--   OwnerBooking    the same service's createOwnerBooking and cancel.
--   Payments        apps/api/src/payments: Webhook is payment-webhook.service.ts (handle, reconcile,
--                   apply, applyOutcome), Pay is payments.{service,repository}.ts (pay), Confirmation is
--                   confirmation.service.ts (getConfirmation, reconcileOnRead).
--   ChannelSync     apps/api/src/channel-sync: ical-import.service.ts (syncConnection is
--                   sync_connection, with upsertEvent, recordConflict, cancelAbsent, closeHealed and
--                   markError) and the dismiss of sync-conflicts.repository.ts.
--   Channels        apps/api/src/channel-sync: connect, disconnect, syncNow and syncAll of
--                   channels.service.ts with its repository.
--   Ical            apps/api/src/channel-sync: Build is ical.ts (buildCalendar, foldLine), Lines, IsoDate
--                   and Parse are ical-parse.ts (unfold, splitLine, toIsoDate, toEvent, parseCalendar),
--                   Text and Date what they use of JavaScript's strings and dates.
--   Staff           apps/api/src/staff: Invites is invite-liveness.ts, the invite half of staff.repository.ts
--                   and create, revoke and preview of invites.service.ts; Accept the accept of that
--                   service and of invite-accept.repository.ts; Team is staff.service.ts. Run has
--                   any sequence of them, Keeps what it takes to be kept by each.
--   Units           apps/api/src/units: create and remove of price-overrides.{service,repository}.ts, archive
--                   and remove of units.{service,repository}.ts; History mixes them with System
--                   and with the steps of Channels.
--   Calendar        apps/web/src/features/calendar/calendar-model.ts: barSpan and buildCalendar.
--   System          requests and cron ticks of bookings and payments, one after another in any order.
--   Common, Tests   shared names and lemmas; concrete runs.
-- A checkout quotes (Availability over Stay), then inserts (Booking over Db.Bookings), then pays (Payments
-- over the same tables); the webhook and the confirmation page drive one transition. A pull of a channel
-- writes imported stays under the same constraints.
--
-- What stands for what: a uuid is a number, and a new one is an argument of the operation that draws it;
-- a moment is its milliseconds and the clock an argument; a date is its day number; money is a natural
-- number where a CHECK says that it is not negative, and a difference of money is an integer. SQL is
-- functions on lists of rows; a transaction is one step, since the constraints and the row lock of `pay`
-- make the transactions that conflict a sequence. The tenant that row-level security confines a query to
-- is an argument. The payment provider is the record `Payments.Gateway` of functions, free in every
-- theorem. Whether the configured encryption key opens a stored credential is part of the tables. The test
-- of zod's `url` is a parameter of `pay`, the comparison of a password with its bcrypt hash one of
-- `accept_invite`, and the locale's order of names one of the calendar.
--
-- Every loop of the modelled code is structural recursion, so no fuel is used.
--
-- The fetch of a feed and the parser of its text are parameters of sync_connection; each sync of a run has
-- a fetch, and each request of System a provider, of its own. A savepoint gives the tables before it when
-- its body fails.
--
-- Not modelled: the HTTP fetch of a feed, the cron tick over all feeds and their freshness, the choice of
-- the bookings that an exported calendar lists, properties as the owner edits them, the creation and
-- renaming of units, the lists of staff, invites and bookings, the payment inbox, settings, the text of
-- notifications, storage, authentication, the HTTP shell, and the web pages but for the grid of the
-- calendar: input and output, presentation, or text. Logs are left out, and so are columns that only text
-- is made of (names, addresses, photos).
pub mod Availability
pub mod Booking
pub mod Calendar
pub mod ChannelSync
pub mod Channels
pub mod Common
pub mod Db
pub mod Ical
pub mod OwnerBooking
pub mod Payments
pub mod Staff
pub mod Stay
pub mod System
pub mod Tests
pub mod Units
