-- ===== src/Web.antt =====
-- The web client of apps/web/src: the text of its paths, and the routes that it reads from them.
pub mod Uri
pub mod Paths
pub mod Routing
