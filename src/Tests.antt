-- ===== src/Tests.antt =====
-- The theorems at concrete inputs.
mod Client
mod Registers
mod Sessions
mod Threads
mod Transfers
mod Listings
mod Servers
