-- ===== src/Lib.antt =====
-- A model of Torus, a distributed block store in Go: the storage of blocks, the layers of a file
-- over it, the rings that place blocks on peers, and the encodings that go with them.
--
-- How the parts interact. A file of a volume is a blockset, a stack of layers
-- (blockset/base.go, blockset/crc.go, blockset/replication.go). Its lowest layer names each block by
-- a fresh `BlockRef` (storage.go) and hands it to a `BlockStore`. A server's own block store is the
-- on-disk one (storage/mfile.go over storage/mmap_file.go) or the one in memory (storage/temp.go).
-- Which peers hold a reference is decided by the ring (ring/, over the peer lists of ring.go), whose
-- membership changes through a union of an old and a new ring. A peer is asked about many references
-- at once, and answers with a bit set (distributor/protocols/tdp/bitset.go). An open file (file.go)
-- reads and writes bytes through a cache of one block (file_cache.go) over its blockset. The layers
-- and the size of a file are its inode, which inode.go keeps in blocks of their own type. The current
-- inode of a volume and its snapshots are metadata, under a lock that one client holds
-- (block/temp.go over metadata/temp/temp.go); the garbage collector (gc/, block/gc_block_vol.go) tells
-- from them which blocks are dead. A tick of the rebalancer (distributor/rebalance/tick.go) deletes those,
-- and sends the blocks that the ring wants elsewhere to their peers.
--
-- Which file models what.
--   Base/          numbers, lists, byte slices, words, bits; the errors of errors.go and the
--                  outcomes of a call: a value, an error, or a panic
--   Refs           storage.go: INodeRef, BlockRef, their encodings, block types, levels
--   Bitset         distributor/protocols/tdp/bitset.go: set, unset, test, bitsetFromBool, toBool
--   RefMap         a Go map with BlockRef keys, as an association list
--   Store.Mmap     storage/mmap_file.go: OpenMFile, GetBlock, NumBlocks, WriteBlock
--   Store.Mfile    storage/mfile.go: newMFileBlockStore, loadIndex, findEmpty, HasBlock, GetBlock,
--                  WriteBlock, WriteBuf, DeleteBlock, close, the iterator
--   Store.Temp     storage/temp.go: the same operations on a map
--   Store.Interface  `torus.BlockStore` as a record of operations, and the contract that a client
--                  relies on; Store.Mfile.Reads and Store.Temp.Reads show that both stores keep it
--   Peers          ring.go: the peer lists, the peer infos, GetWeights
--   Ring           ring/mod.go, ring/ketama.go, ring/single.go, ring/empty.go, ring/union.go
--   Blockset       blockset/base.go, blockset/crc.go, blockset/replication.go, a function each on
--                  the answer of the layer below; Blockset.Layers joins them as the calls do;
--                  Blockset.Registry is blockset/blockset_main.go, which makes, writes and reads stacks
--   Lru            distributor/lru.go: the read cache of the distributor
--   Files          file_cache.go (Cache) and file.go (File, Reader), over a blockset as the record of
--                  operations of Files.Ops, which Files.Layered fills with the layers; Files.View is
--                  the content that a reader sees, the open block in front of the blockset
--   INodes         inode.go: WriteINode, GetINode, DeleteINode, the iterator
--   NumMap         a Go map with numbers for keys
--   Meta           metadata/temp/temp.go: the server; Meta.Volumes is block/temp.go; Meta.Runs has the
--                  calls of many clients, one after the other, and Meta.Stops the calls that stop the
--                  server for good, by blocking with its mutex held or by a panic
--   Rebalance      distributor/rebalance/tick.go: a tick, in the order of its loops: the scan, the sends,
--                  the deletes
--   Gc             gc/gc.go, gc/null.go, block/gc_block_vol.go, and GetAllBlockRefs of the layers
--
-- State. A method that changes its receiver takes the state and returns its outcome with the new
-- state, also when it fails. Methods under a lock are one step. Words are natural numbers with the
-- wrap-around written out where the code can reach it. Loops with a counter are recursion on the
-- number of rounds that the code's bounds give, so no round is missing; the loops over a slice are
-- structural. The one loop with a fuel of its own is Euclid's (`gcd_rounds`), where `suc b` rounds
-- are enough because the second number decreases. The loops of WriteINode and GetINode have one
-- round for each byte and one more: only the first may copy nothing. ReadAt has a round for each
-- byte that is left, the bulk part of WriteAt one for each whole block.
--
-- Parameters. `crc32.ChecksumIEEE`, `strconv.Atoi`, `hashring.NewWithWeights` and the nodes that a hash ring gives
-- are arguments; of the hash ring it is assumed, where a theorem needs it, that it gives distinct
-- members. The contents of a mapped file are given when it is opened. `godbc.Require`, `fmt.Sprint`, the
-- clock, the index that the metadata commits for a file, and the flush of a file's server are
-- arguments as well, and so is which listener takes a ring that SetRing sends. Strings that are only compared (UUIDs, names, keys) are numbers, 0 the empty one.
--
-- Not modelled: the network protocols, etcd, the command line, the block devices (NBD, TCMU, AoE),
-- generated messages, logs and Prometheus counters, contexts and their cancellation, and concurrency
-- below the granularity of a locked method. The map's iteration order is the order of the
-- association list. A slice that a call returns is a copy in the model: that writeToBlock changes the
-- memory of a store through the slice of GetBlock is left out. SyncINode and Close of a file, the
-- openings of a block volume (block/volume.go, block/blockfile.go), the distributor's reads and writes
-- (distributor/storage.go) have no model.
pub mod Base
pub mod Refs
pub mod Bitset
pub mod RefMap
pub mod Store
pub mod Peers
pub mod Ring
pub mod Blockset
pub mod Lru
pub mod Files
pub mod INodes
pub mod NumMap
pub mod Meta
pub mod Gc
pub mod Rebalance
