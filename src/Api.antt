-- ===== src/Api.antt =====
-- The handlers of internal/api. A handler answers with its HTTP status; the bodies of the answers
-- are left out. A request body is `none` where ShouldBindJSON refuses it.
pub mod Respond
pub mod Guard
pub mod Bookings
pub mod Payment
pub mod Waitlist
pub mod Events
pub mod Auth
pub mod Admin
pub mod Docs
