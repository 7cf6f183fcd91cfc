-- ===== src/Lifecycle.antt =====
-- What becomes of the rows of the table bookings, whichever methods of internal/store are called.
pub mod Rows
pub mod Store
pub mod Cancelled
