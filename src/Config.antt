-- ===== src/Config.antt =====
-- dasik/lib/json_parser: a config that is put together from several files, and its way back.
pub mod Files
pub mod Includes
pub mod WriteBack
mod Tests
