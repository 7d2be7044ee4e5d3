-- ===== src/Tests.antt =====
-- Concrete runs of the modelled code, and each theorem at one of them.
pub mod Data
pub mod Stays
pub mod Bookings
pub mod Payments
pub mod ChannelSync
pub mod System
pub mod Ical
pub mod Staff
pub mod Units
pub mod Calendar
pub mod Channels
