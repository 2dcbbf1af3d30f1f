-- ===== src/Tests.antt =====
-- The theorems at concrete inputs.
mod Fixtures
mod Ending
mod Calls
mod Running
mod Storing
mod Invites
mod Calling
mod Starting
mod Listening
mod Balancing
