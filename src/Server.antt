-- ===== src/Server.antt =====
-- src/titlani/server: mailing lists, subscription tokens and the handler that stores messages.
pub mod Subscription
pub mod Lists
pub mod State
pub mod Commands
pub mod Delivery
pub mod Handler
pub mod Connection
