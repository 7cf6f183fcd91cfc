-- ===== src/System/Traversal.antt =====
-- From the methods of the repositories and the calls outside of Postgres to the requests: relations
-- between the world before and after that they obey.
pub mod Outside
pub mod Views
pub mod Services
pub mod Jobs
pub mod Requests
