-- ===== src/Store.antt =====
-- The interface `BlockStore` of storage.go: the calls that the layers above make, and the
-- contract that they rely on. mfile and temp fill it in Store/Mfile and Store/Temp.
pub mod Mmap
pub mod Mfile
pub mod Temp
pub mod Interface
