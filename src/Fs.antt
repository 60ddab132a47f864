-- ===== src/Fs.antt =====
-- The Amiga file system on a block device: amitools/fs.
pub mod Bitmap
pub mod Block
pub mod Geometry
pub mod Rdb
