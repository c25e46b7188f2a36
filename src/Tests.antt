-- ===== src/Tests.antt =====
-- Runs of the crates' functions on small inputs, and the theorems applied to them.
mod Fixtures
mod CoreTests
mod EraseTests
mod UnlockTests
mod PamTests
mod CommandTests
mod DsctlTests
mod RecoveryTests
mod DeadmanTests
mod DuressTests
