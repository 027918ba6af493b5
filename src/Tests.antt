-- ===== src/Tests.antt =====
-- Examples: the theorems at concrete inputs, and some cases of the tests of the repository.
mod Pairing
mod Unit
mod Fixtures
mod Runs
mod Opened
mod Running
mod Stopping
mod Confirming
mod Forwarding
mod Serving
mod Exchanging
mod Calls
mod Handlers
mod Trusting
