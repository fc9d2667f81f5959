-- ===== src/Webhooks.antt =====
-- internal/webhooks: events and their payload, signing, the redaction of endpoint URLs, and the
-- delivery worker.
pub mod Events
pub mod Delivery
pub mod Worker
mod Examples
