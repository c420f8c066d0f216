-- ===== src/Expand.antt =====
-- dasik/lib/expand: the feature toggles of a config and what they add to its base domains.
pub mod Fragment
pub mod Toggles
pub mod Merging
mod Tests
