-- ===== src/Blockset/Copies.antt =====
-- The encoding of the replication layer: Marshal and Unmarshal of blockset/replication.go. An int32
-- of 2 ^ 31 or more is negative, and `make` panics on it.
use torus.Base.{
  ℕ, zero, suc, ◌+◌, ◌-◌, ◌^◌, List, [], ◌∷◌, ◌++◌, length, get_elem?, take, drop, replicate, ltb,
  leb, ◌==◌, if◌then◌else◌, Bytes, le_bytes, le_value, Outcome, ok, err, panic, Error, ◌>>=◌,
  or_panic,
}
use torus.Refs.{BlockRef, from_bytes, block_ref_byte_size}
use torus.Blockset.Base
use torus.Blockset.Replication.{ReplicationBlockset}

abbrev pub i32_max : ℕ
i32_max = 2 ^ 31

-- `binary.Write` of an int32
abbrev pub write_i32 : ℕ → Bytes
write_i32 n = le_bytes 4 n

-- The loop of `Marshal`: `k` lists from list `i` on.
unfoldable pub marshal_copies : ℕ → ℕ → List (List BlockRef) → Outcome Bytes
marshal_copies zero i lists = ok []
marshal_copies (suc k) i lists = do
  list ← or_panic (get_elem? lists i)
  rest ← marshal_copies k (i + 1) lists
  ok ((write_i32 (length list) ++ Base.marshal list) ++ rest)

unfoldable pub marshal : ReplicationBlockset → Outcome Bytes
unfolding marshal_copies
marshal b = do copies ← marshal_copies (b.rep - 1) 0 b.rep_blocks; ok (write_i32 b.rep ++ copies)

-- `binary.Read` of an int32: the number and the rest of the data.
unfoldable pub read_i32 : Bytes → Outcome (ℕ × Bytes)
read_i32 d = if ltb (length d) 4 then err (Error.other 0) else ok (le_value (take 4 d), drop 4 d)

-- The inner loop of `Unmarshal`. `Read` fails only when nothing is left; a short read leaves zeros.
unfoldable pub read_refs : ℕ → Bytes → Outcome (List BlockRef × Bytes)
read_refs zero d = ok ([], d)
read_refs (suc l) d =
    let rest = read_refs l (drop block_ref_byte_size d) in
    if length d == 0
    then err (Error.other 1)
    else rest >>= λ p.
        ok (from_bytes (take block_ref_byte_size (d ++ replicate block_ref_byte_size 0)) ∷ p.0, p.1)

-- One round of the loop of `Unmarshal`
unfoldable pub read_list : Bytes → Outcome (List BlockRef × Bytes)
unfolding read_refs read_i32
read_list d = do
  (l, rest) ← read_i32 d
  let refs = read_refs l rest
  if leb i32_max l then panic else refs

-- The loop of `Unmarshal`, which leaves the entry behind its last round nil.
unfoldable pub read_lists : ℕ → Bytes → Outcome (List (List BlockRef))
unfolding read_list
read_lists zero d = ok []
read_lists (suc k) d = do (list, rest) ← read_list d; lists ← read_lists k rest; ok (list ∷ lists)

-- `make([][]torus.BlockRef, rep)`, filled by the loop
unfoldable pub read_copies_of : ℕ → Bytes → Outcome ReplicationBlockset
unfolding read_lists
read_copies_of zero d = ok (record { rep = 0; rep_blocks = [] })
read_copies_of (suc k) d = do
  lists ← read_lists k d
  ok (record { rep = suc k; rep_blocks = lists ++ ([] ∷ []) })

-- `Unmarshal`: a layer on which it fails is thrown away by its caller.
unfoldable pub unmarshal : Bytes → Outcome ReplicationBlockset
unfolding read_copies_of read_i32
unmarshal d = do
  (rep, rest) ← read_i32 d
  let copies = read_copies_of rep rest
  if leb i32_max rep then panic else copies
