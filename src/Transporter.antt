-- ===== src/Transporter.antt =====
-- internal/transporter/internal/client: pending.go, message.go, client.go and conn.go, the side of a
-- connection between nodes that calls.
pub mod Pending
pub mod Writing
pub mod Messages
pub mod Loading
pub mod Connection
mod Tests
