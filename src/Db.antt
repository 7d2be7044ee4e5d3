-- ===== src/Db.antt =====
-- packages/db: the tables (`Schema`), transactions (`Tx`) and the constraints on bookings (`Bookings`,
-- with their meaning in `Overlap`).
pub mod Schema
pub mod Tx
pub mod Bookings
pub mod Overlap
pub mod Keeps
pub mod Inversion
