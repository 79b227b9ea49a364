-- ===== src/Runner.antt =====
-- app/worker/runner.py: loading the initial state, the outcome of a run, and a whole run.
pub mod Persist
pub mod Rows
pub mod Outcome
pub mod Saved
pub mod Load
pub mod Process
pub mod Webhook
pub mod Posting
