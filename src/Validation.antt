-- ===== src/Validation.antt =====
-- src/autoswe/pipeline/validation.py: safe paths (`Text`, `Path`, with `Stable` on the round trip) and the
-- intake of generated files (`Sanitize`, with `Intake` on what it accepts). A text is its code points.
pub mod Text
pub mod Path
pub mod Stable
pub mod Sanitize
pub mod Intake
