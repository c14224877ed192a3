-- ===== src/Documents.antt =====
-- Documents (app/documents).
pub mod Uploads
pub mod Links
