-- ===== src/Middleware.antt =====
-- internal/middleware
pub mod MemoryLimit
pub mod RedisLimit
pub mod HybridLimit
pub mod Auth
