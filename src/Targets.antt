-- ===== src/Targets.antt =====
-- targets: the webhook target and the email target.
pub mod Sharing
pub mod Webhook
pub mod Email
pub mod Channels
