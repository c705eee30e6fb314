-- ===== src/Blockset.antt =====
-- Blocksets, the layers between a file and the block store: package blockset. `Base`, `Crc` and
-- `Replication` model a layer each, on the answer of the layer below; `Layers` puts them together
-- as the interface calls do.
pub mod Base
mod Checks
pub mod Indexing
pub mod Crc
pub mod Replication
pub mod Copies
pub mod Grown
pub mod Layers
pub mod Registry
pub mod RoundTrips
pub mod Reopened
