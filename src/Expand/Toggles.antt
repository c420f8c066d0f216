-- ===== src/Expand/Toggles.antt =====
-- dasik/lib/expand/toggles.py: one function for each feature toggle, in groups.
pub mod Hardware
pub mod Services
pub mod Security
pub mod Content
pub mod Wireguard
