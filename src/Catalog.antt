-- ===== src/Catalog.antt =====
-- backend/app/catalog: the review of product images.
pub mod Images
pub mod Review
