-- ===== src/Targets/Email.antt =====
-- targets/email: Config is the target with its options, Mailbox the addresses and the validation,
-- Message the text that is sent. Proxy and Session talk to the servers, Classify sorts the errors,
-- and Sending is SendResult.
pub mod Config
pub mod Mailbox
pub mod Message
pub mod Classify
pub mod Wire
pub mod Proxy
pub mod Session
pub mod Sending
pub mod Retries
