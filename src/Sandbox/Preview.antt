-- ===== src/Sandbox/Preview.antt =====
-- The previews of src/sandbox/preview/preview.service.ts.
pub mod Service
pub mod Worlds
pub mod Builds
pub mod Invariant
pub mod Counts
pub mod Capacity
pub mod Resumed
pub mod Starts
pub mod Reaper
pub mod Comeback
pub mod Waits
pub mod Native
pub mod Framework
pub mod Prepare
mod Tests
