-- ===== src/Build.antt =====
-- internal/build/executor.go: which units a build takes up, and in what order.
pub mod Order
pub mod Plan
pub mod Schedule
pub mod Finish
mod Tests
