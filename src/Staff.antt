-- ===== src/Staff.antt =====
-- The team of a tenant: apps/api/src/staff, on its part of packages/db/src/schema.ts.
pub mod Schema
pub mod Invites
pub mod Accept
pub mod Team
pub mod Passwords
pub mod Proved
pub mod Run
pub mod Keeps
pub mod Lifecycle
pub mod OneOpen
pub mod Once
pub mod Seats
pub mod Seated
