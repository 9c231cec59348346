-- ===== src/Link.antt =====
-- internal/link: where a user's nodes are known from, and what is counted of them.
pub mod Sources
pub mod Calls
mod Tests
