-- ===== src/Tests.antt =====
-- Each theorem at concrete inputs, and tests of the definitions.
mod Messaging
mod Caches
mod Fetching
mod Services
mod Resolving
mod Models
mod Graphs
mod Scheduling
mod Discovering
mod Analyses
mod Collecting
mod Ordering
