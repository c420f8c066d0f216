-- ===== src/Executor.antt =====
-- dasik/lib/actions/action_registry.py and action_executor.py: the registered actions and the older way
-- to run them, each action on its own.
pub mod Registry
pub mod Running
pub mod Laws
pub mod Configured
mod Tests
