-- ===== src/Tests.antt =====
-- Tests, and the theorems at concrete inputs.
mod Channels
mod Completions
mod Sharing
mod Common
mod Errors
mod Retry
mod Webhook
mod Receivers
mod Manager
mod Email
mod Templates
