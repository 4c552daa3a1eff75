-- ===== src/Content.antt =====
-- src/titlani/content: the gemmail format and message ids.
pub mod Address
pub mod Time
pub mod Gemmail
pub mod MessageId
