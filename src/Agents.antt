-- ===== src/Agents.antt =====
-- The agents of the backend: src/agents.
pub mod Retry
pub mod Orchestrator
