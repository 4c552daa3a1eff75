-- ===== src/Tests.antt =====
-- The theorems at concrete inputs, and runs of the definitions.
mod Run
mod Protocol
mod Content
mod Machine
mod Server
mod Tokens
mod Connection
mod Gmap
mod Replies
mod Encryption
mod Routes
mod Client
mod Verification
