-- ===== src/Repository.antt =====
-- src/autoswe/repository.py: the transactions on jobs, in the children `Statements`, `Submit`, `Queue` and
-- `Requeue`; what they do to the reservations is in `Reservations`, and what their compare-and-sets
-- decide is in `Races`.
pub mod Statements
pub mod Submit
pub mod Queue
pub mod Requeue
pub mod Reservations
pub mod Races
pub mod Leaving
pub mod Atomic
pub mod Duplicates
pub mod Checkpoints
