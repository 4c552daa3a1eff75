-- ===== src/Protocol.antt =====
-- src/titlani/protocol: constants, status codes, responses and requests.
pub mod Constants
pub mod Errors
pub mod Status
pub mod Response
pub mod Request
