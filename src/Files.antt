-- ===== src/Files.antt =====
-- The files of a project and their versions: src/files.
pub mod Tables
pub mod Service
pub mod Versions
pub mod Quota
pub mod Memory
mod Tests
