-- ===== src/Verification.antt =====
-- src/titlani/verification: sender verification.
pub mod Outcome
pub mod Cache
pub mod Probe
pub mod Spki
pub mod Combined
pub mod Wrapper
