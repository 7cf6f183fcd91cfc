-- ===== src/Service.antt =====
-- The services of internal/service, and the brokers that they call.
pub mod Outgoing
pub mod Mailer
pub mod Bookings
pub mod Payment
pub mod Finalize
pub mod Admin
pub mod Auth
pub mod Events
pub mod Laws
