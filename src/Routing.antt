-- ===== src/Routing.antt =====
-- src/hermes_auto/routing/selector.py: eligibility, classification and ordered selection.
pub mod Request
pub mod Candidates
pub mod Router
