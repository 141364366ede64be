-- ===== src/Notify.antt =====
-- The package notify.
pub mod Error
pub mod Result
pub mod Calls
pub mod Policy
pub mod Backoff
pub mod Retry
pub mod Receivers
pub mod Delivery
pub mod Send
pub mod Store
pub mod Dispatcher
pub mod Manager
