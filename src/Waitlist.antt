-- ===== src/Waitlist.antt =====
-- The waitlist of an event (internal/store/waitlist/waitlist.go) as a queue.
pub mod Order
pub mod Queue
pub mod Methods
pub mod Laws
