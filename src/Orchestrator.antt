-- ===== src/Orchestrator.antt =====
-- src/autoswe/pipeline/orchestrator.py
pub mod Outcomes
pub mod Pipeline
pub mod Ends
pub mod Run
pub mod Settles
pub mod Resumes
pub mod Refines
