-- ===== src/Upgrade/Laws.antt =====
-- What a run of the upgrade reports: the verdicts on single items, and the whole run.
pub mod Verdicts
pub mod Outcomes
pub mod Reports
