-- ===== src/Tests.antt =====
-- Runs of the modelled code at concrete inputs, and the theorems applied to them.
mod Jobs
mod Runner
mod Registry
mod Fetch
mod Search
mod Llm
mod Core
mod Preferences
mod Pipelines
mod Summaries
