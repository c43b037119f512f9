-- ===== src/Versions.antt =====
-- apps/api/src/versions: the releases of a project.
pub mod Files
