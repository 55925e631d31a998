-- ===== src/Supervisor.antt =====
-- src/hermes_auto/supervisor.py: the status of the sidecar, its start, its restart and its orderly stop.
pub mod Machine
pub mod Probing
pub mod Reporting
pub mod Asking
pub mod Stopping
pub mod Spawning
pub mod Starting
pub mod Replacing
pub mod Vacancy
pub mod Hosts
pub mod Traces
pub mod Identity
pub mod Removal
