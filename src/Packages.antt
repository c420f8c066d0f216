-- ===== src/Packages.antt =====
-- dasik/lib/actions/package_resolver.py and pacman_conflicts.py: where packages come from and clash.
pub mod Names
pub mod Batches
pub mod Resolution
pub mod Resolver
pub mod Conflicts
mod Tests
