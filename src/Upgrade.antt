-- ===== src/Upgrade.antt =====
-- dasik/lib/upgrade: the steps of `dasik upgrade` and what came of them.
pub mod Steps
pub mod Output
pub mod Runner
pub mod Summary
pub mod Laws
mod Tests
