-- ===== src/Sandbox.antt =====
-- The sandbox of src/sandbox: what may be run, and the builds.
pub mod Regex
pub mod Sanitizer
pub mod ApkBuild
pub mod Preview
pub mod Docker
