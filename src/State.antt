-- ===== src/State.antt =====
-- dasik/lib/state: the changes, the set arithmetic that finds them, and the records kept of them.
pub mod Change
pub mod SetMath
pub mod ApplyLock
pub mod ConfigWriter
pub mod StateStore
pub mod GenerationStore
