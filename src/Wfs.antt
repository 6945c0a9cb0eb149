-- ===== src/Wfs.antt =====
-- 01-fuse-filesystem-wfs: the filesystem served over FUSE, and the program that lays it out.
pub mod Word
pub mod Bitmap
pub mod Memory
pub mod Disk
pub mod Data
pub mod File
pub mod Color
pub mod Path
pub mod Directory
pub mod Ops
pub mod Mkfs
pub mod Tests
