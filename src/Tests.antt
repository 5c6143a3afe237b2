-- ===== src/Tests.antt =====
-- Runs of the model at concrete inputs, and the theorems at inputs that meet their hypotheses.
mod Fieldpath
mod Paved
mod Condition
mod Policies
mod Meta
mod Gate
mod Linter
mod Managed
mod Reference
mod ProviderConfig
mod Apply
mod Changes
mod Ratelimiter
mod Names
