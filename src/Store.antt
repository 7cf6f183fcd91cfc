-- ===== src/Store.antt =====
-- The repositories of internal/store: the SQL statements of the program.
pub mod Bookings
pub mod BookingTx
pub mod Events
pub mod Seats
pub mod Waitlist
pub mod Users
pub mod Admin
pub mod Analytics
pub mod Laws
pub mod Calls
pub mod Blind
pub mod Statements
