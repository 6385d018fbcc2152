-- ===== src/Tests.antt =====
-- Runs of the models on concrete data, and each theorem with hypotheses at an input that meets them.
mod Jobs
mod Grading
mod Retry
mod Gate
mod Sandbox
mod Checks
mod Episode
mod Runs
mod Reconcile
mod Finish
mod Memory
mod Create
mod Facts
