-- ===== src/Store/Temp.antt =====
-- `tempBlockStore`, the store in memory: storage/temp.go. A nil map is a closed store.
pub mod Reads
mod Checks
use torus.Base.{
  ℕ, ◌+◌, ◌/◌, Bool, true, false, Option, none, some, [], length, leb, if◌then◌else◌, ◌==◌,
  replicate, Bytes, Outcome, ok, err, panic, Error,
}
use torus.Refs.{BlockRef}
use torus.RefMap.{RefMap, lookup, insert, erase, size}

pub record TempBlockStore : Type 0 where
  pub store : Option (RefMap Bytes)
  pub n_blocks : ℕ
  pub block_size : ℕ

-- `openTempBlockStore`; the sizes come from the configuration.
unfoldable pub open_temp_block_store : ℕ → ℕ → Outcome TempBlockStore
open_temp_block_store storage_size block_size =
    if block_size == 0
    then panic
    else ok
        (record { store = some []; n_blocks = storage_size / block_size; block_size = block_size })

unfoldable pub close : TempBlockStore → TempBlockStore
close t = record t { store = none }

unfoldable pub used_blocks : TempBlockStore → ℕ
used_blocks t = elim t.store [ none ↦ 0 | some m ↦ size m ]

-- A nil map has no key.
unfoldable pub has_block : TempBlockStore → BlockRef → Bool
has_block t r = elim t.store [
  | none ↦ false
  | some m ↦ elim (lookup r m) [ none ↦ false | some d ↦ true ]
]

unfoldable pub get_block : TempBlockStore → BlockRef → Outcome Bytes
get_block t r = elim t.store [
  | none ↦ err Error.closed
  | some m ↦ elim (lookup r m) [ none ↦ err Error.block_not_exist | some d ↦ ok d ]
]

-- `WriteBlock`: the room is checked first, also for a reference that is there already.
unfoldable pub write_block : TempBlockStore → BlockRef → Bytes → Outcome (Unit {0}) × TempBlockStore
write_block t r d = elim t.store [
  | none ↦ (err Error.closed, t)
  | some m ↦
      if leb t.n_blocks (size m)
      then (err Error.out_of_space, t)
      else (ok tt, record t { store = some (insert r d m) })
]

-- `WriteBuf`: the buffer handed out is the one stored, all zeros.
unfoldable pub write_buf : TempBlockStore → BlockRef → Outcome Bytes × TempBlockStore
write_buf t r = elim t.store [
  | none ↦ (err Error.closed, t)
  | some m ↦ if leb t.n_blocks (size m) then (err Error.out_of_space, t) else (
    ok (replicate t.block_size 0),
    record t { store = some (insert r (replicate t.block_size 0) m) },
  )
]

unfoldable pub delete_block : TempBlockStore → BlockRef → Outcome (Unit {0}) × TempBlockStore
delete_block t r = elim t.store [
  | none ↦ (err Error.closed, t)
  | some m ↦ (ok tt, record t { store = some (erase r m) })
]
