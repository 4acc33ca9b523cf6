-- ===== src/Examples.antt =====
-- The theorems at concrete inputs: small claims, fleets and packages.
mod Claims
mod Hub
mod Alerts
mod Notices
mod Packages
mod Plans
mod Policies
mod Evaluations
mod Pipelines
mod Builtins
mod Seals
mod Attestations
mod Overlays
mod Caches
mod Retries
mod Vaults
mod Emissions
