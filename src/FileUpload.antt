-- ===== src/FileUpload.antt =====
-- The file service, services/file-upload.
pub mod Chunk
pub mod Breaker
pub mod Processor
pub mod Sanitizer
