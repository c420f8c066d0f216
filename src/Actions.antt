-- ===== src/Actions.antt =====
-- dasik/lib/actions: actions as implementations of the reconciler's interface.
pub mod Scalar
pub mod Composite
mod Tests
