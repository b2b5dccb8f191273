-- ===== src/Notifications.antt =====
-- The notifications part: the inbox, the channels of a user, and their dispatch.
pub mod Inbox
pub mod Dispatch
mod Tests
