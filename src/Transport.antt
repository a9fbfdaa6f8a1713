-- ===== src/Transport.antt =====
-- internal/transport: what a response means, and the retrying client.
pub mod Message
pub mod Response
pub mod Client
pub mod Middleware
