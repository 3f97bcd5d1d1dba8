-- ===== src/Tests.antt =====
-- The theorems at concrete inputs, by the part of the program.
mod Access
mod Supply
mod Codec
mod Billing
mod Work
mod Lifecycle
mod Service
mod Halves
mod Scrapes
mod Stores
mod Clients
