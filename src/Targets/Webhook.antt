-- ===== src/Targets/Webhook.antt =====
-- targets/webhook/webhook.go: the webhook target. Body and RetryAfter are about the parts of a
-- response, Errors about redaction, Sending about SendResult, LogMode and Logging about what is
-- logged, Config about the options, and the rest about what these do together.
pub mod Body
pub mod RetryAfter
pub mod Errors
pub mod LogMode
pub mod Sending
pub mod Logging
pub mod Config
pub mod Outcome
pub mod Retries
pub mod Secrets
pub mod Headers
pub mod Sharing
