-- ===== src/Tests.antt =====
-- Runs of the model on concrete inputs, and the theorems at concrete arguments.
mod Fixtures
mod Runs
mod Witnesses
mod Settings
mod Halves
mod Encoding
mod Determinism
