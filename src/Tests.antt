-- ===== src/Tests.antt =====
-- The environment of the tests: an in-memory stand-in for each thing that is not of this
-- repository, with the proof that it keeps the laws that are assumed of it, and tests.
pub mod Memory
pub mod Codec
pub mod Service
pub mod Passwords
pub mod Codes
pub mod Accounts
pub mod Requests
pub mod Files
pub mod TwoSteps
pub mod Gates
pub mod Disks
pub mod Starts
pub mod Setups
pub mod TwoFactor
pub mod Commands
pub mod Processes
pub mod Tokens
pub mod Restarts
