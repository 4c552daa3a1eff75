-- ===== src/Gmap.antt =====
-- src/titlani/gmap: the index of a mailbox and the operations on it.
pub mod Mailbox
pub mod Index
pub mod Request
pub mod Routes
pub mod Connection
