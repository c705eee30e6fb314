-- ===== src/Files.antt =====
-- Open files: file.go and file_cache.go, over a blockset. `Ops` is what a file calls of its blockset,
-- `Layered` gives it for the stacks of `Blockset.Layers`. A slice that GetBlock hands out is taken as
-- a copy of the block; where the store hands out its own memory, a write to the open block reaches
-- the stored block before `sync` does.
pub mod Ops
pub mod Cache
pub mod View
pub mod Opening
pub mod Writing
pub mod File
pub mod Reader
pub mod Reading
pub mod Bytes
pub mod Updates
pub mod WriteAt
pub mod Layered
mod Checks
