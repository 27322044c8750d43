-- ===== src/Uploads.antt =====
-- templates/modules/file-upload/files/apps/api/src/files: uploads in parts.
pub mod Layout
pub mod Config
pub mod Sessions
pub mod Requests
mod Tests
