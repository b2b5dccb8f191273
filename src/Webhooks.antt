-- ===== src/Webhooks.antt =====
-- Outgoing webhooks of the notifications context, `app/notifications`.
pub mod Delivery
pub mod Dispatch
mod Tests
