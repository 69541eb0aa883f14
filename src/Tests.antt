-- ===== src/Tests.antt =====
-- The theorems at concrete inputs.
mod Fixture
mod CoreReads
mod CoreWrites
mod CoreSyncs
mod Resources
mod Modules
mod Workers
mod Stores
mod ResourceStore
mod ResourceSyncs
mod ResourceService
mod Firehoses
mod Texts
