-- ===== src/Tests.antt =====
-- Runs of the definitions at concrete inputs, and each theorem at an input that meets its
-- hypotheses.
mod Resilience
mod Logging
mod Trail
mod Export
mod Scoring
mod Runs
mod Fixtures
mod Service
mod Actions
mod Leaks
mod Access
mod Parsing
mod Extracting
mod Endpoints
