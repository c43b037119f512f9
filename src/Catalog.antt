-- ===== src/Catalog.antt =====
-- The slugs, the review and the followers of projects: apps/api/src/catalog/services.
pub mod Moderation
pub mod Follows
pub mod Slugs
