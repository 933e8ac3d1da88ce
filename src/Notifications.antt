-- ===== src/Notifications.antt =====
-- The notification service: rules (`Rules`), the delivery ledger (`Ledger`), and the engine
-- (`Engine`) of app/services/notifications and app/repositories/notification.py.
mod Samples
mod Tests
pub mod Requests
pub mod Rules
pub mod Ledger
pub mod Preferences
pub mod Providers
pub mod WebPush
pub mod World
pub mod Targets
pub mod Engine
