-- ===== src/Reconciler.antt =====
-- dasik/lib/reconciler/reconciler.py: the actions as an interface, planning, applying and syncing.
pub mod Interface
pub mod Planning
pub mod Manifests
pub mod Applying
pub mod Syncing
pub mod Samples
mod Tests
