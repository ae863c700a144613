-- ===== src/Tests.antt =====
-- The theorems at concrete inputs: a small table on the in-memory server.
mod Fixtures
mod AssignTests
mod ResumeTests
mod SweepTests
mod DiscoveryTests
mod GcTests
mod RouterTests
mod WorkerTests
mod ControlTests
mod PoolTests
mod PlanTests
