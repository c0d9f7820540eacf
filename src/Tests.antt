-- ===== src/Tests.antt =====
-- Runs of the code at concrete inputs, and an application of each result.
mod Data
mod Streams
mod Differences
mod Chain
mod Readers
mod Documents
mod Rates
mod Backups
mod Restores
mod Verifying
mod Walks
mod Progress
mod Mounted
mod IndexFiles
mod Configurations
