-- ===== src/Tests.antt =====
-- The theorems at concrete inputs: a history of one job (`Jobs`) and generated files (`Files`).
mod Jobs
mod Files
mod Runs
mod Calls
mod Slots
mod Keys
mod Requests
mod Streams
mod Entities
mod Sandboxes
mod Recordings
mod Principals
