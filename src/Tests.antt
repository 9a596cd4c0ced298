-- ===== src/Tests.antt =====
-- A sample network, and the theorems at work on it.
pub mod Sample
pub mod Searches
pub mod Audits
pub mod Links
pub mod Returns
pub mod Nodes
pub mod Incidents
pub mod Losses
pub mod Runs
pub mod Tables
pub mod Plans
pub mod Evidence
pub mod Domains
pub mod Snapshots
pub mod Collections
pub mod Designs
pub mod Texts
pub mod Bindings
