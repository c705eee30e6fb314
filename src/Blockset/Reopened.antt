-- ===== src/Blockset/Reopened.antt =====
-- What a stack of layers is after MarshalBlocksetToProto and UnmarshalFromProto.
use Prim.Native.String.{String}
use torus.Base.{
  ℕ, zero, suc, ◌+◌, ◌-◌, ◌<◌, ◌≡◌, refl, sym, ap, ◌∙◌, false, Option, some, List, [], ◌∷◌, ◌++◌,
  arith, length, get_elem?, drop, append_assoc, leb, Bytes, ok,
}
use torus.Refs.{BlockRef}
use torus.Blockset.Base
use torus.Blockset.Base.{BaseBlockset}
use torus.Blockset.Crc
use torus.Blockset.Replication.{ReplicationBlockset, new_replication}
use torus.Blockset.Copies
use torus.Blockset.Copies.{
  i32_max, write_i32, read_i32, read_refs, read_list, read_lists, read_copies_of, marshal_copies,
}
use torus.Blockset.Layers.{Blockset, base, crc, rep}
use torus.Blockset.Registry.{
  LayerMessage, marshal_layers, create_blockset, create_rep, make_rep, make_crc, fill_layer,
  unmarshal_layers, top_layer, unmarshal_from_proto,
}
use torus.Blockset.RoundTrips.{
  AllInRange, AllChecksums, AllCopies, unmarshal-marshal, crc_unmarshal-marshal, read_i32-write,
  read_refs-marshal,
}

-- The bytes of lists of copies, one list after another.
copies_bytes : List (List BlockRef) → Bytes
copies_bytes [] = []
copies_bytes (x ∷ xs) = (write_i32 (length x) ++ Base.marshal x) ++ copies_bytes xs

read_list-marshal :
    (x : List BlockRef) (d : Bytes)
    → length x < i32_max
    → AllInRange x
    → read_list ((write_i32 (length x) ++ Base.marshal x) ++ d) ≡ ok (x, d)
unfolding read_list
read_list-marshal x d h k =
    let short : leb i32_max (length x) ≡ false = ground arith in
    rw
      (
        append_assoc (write_i32 (length x)) (Base.marshal x) d,
        read_i32-write (length x) (Base.marshal x ++ d) h,
        short,
      )
      (read_refs-marshal x d k)

read_lists-marshal :
    (xs : List (List BlockRef)) → AllCopies xs → read_lists (length xs) (copies_bytes xs) ≡ ok xs
unfolding read_lists copies_bytes
read_lists-marshal [] h = refl
read_lists-marshal (x ∷ xs) h =
    rw (read_list-marshal x (copies_bytes xs) h.0.0 h.0.1, read_lists-marshal xs h.1) refl

drop_at :
    (i : ℕ) (lists : List (List BlockRef)) {x : List BlockRef} {xs : List (List BlockRef)}
    → drop i lists ≡ x ∷ xs
    → (get_elem? lists i ≡ some x) × (drop (i + 1) lists ≡ xs)
drop_at zero [] h = cc
drop_at zero (y ∷ ys) h = (cc, cc)
drop_at (suc i) [] h = cc
drop_at (suc i) (y ∷ ys) h =
    let step : suc i + 1 ≡ suc (i + 1) = omega arith in rw step (drop_at i ys h)

marshal_copies_lem :
    (xs : List (List BlockRef)) (i : ℕ) (lists : List (List BlockRef))
    → drop i lists ≡ xs
    → marshal_copies (length xs) i lists ≡ ok (copies_bytes xs)
unfolding marshal_copies copies_bytes
marshal_copies_lem [] i lists h = refl
marshal_copies_lem (x ∷ xs) i lists h =
    let at = drop_at i lists h in rw (at.0, marshal_copies_lem xs (i + 1) lists at.1) refl

-- A replication layer that Marshal can write: `rep - 1` lists of copies, of lengths below 2 ^ 31.
pub record IsRepEncodable (r : ReplicationBlockset) : Type 0 where
  pub rep_pos : 0 < r.rep
  pub rep_lt : r.rep < i32_max
  pub lists : length r.rep_blocks ≡ r.rep - 1
  pub copies : AllCopies r.rep_blocks

filled_lem :
    (n : ℕ) (lists : List (List BlockRef))
    → 0 < n
    → length lists ≡ n - 1
    → AllCopies lists
    → read_copies_of n (copies_bytes lists)
      ≡ ok (record { rep = n; rep_blocks = lists ++ ([] ∷ []) })
unfolding read_copies_of
filled_lem zero lists pos size all = absurd (omega arith)
filled_lem (suc k) lists pos size all =
    let count : k ≡ length lists = omega (arith, size) in
    rw (ap (λ n. read_lists n (copies_bytes lists)) count ∙ read_lists-marshal lists all) refl

pub copies_round_trip :
    (r : ReplicationBlockset)
    → IsRepEncodable r
    → (d : Bytes) × (Copies.marshal r ≡ ok d)
      × (Copies.unmarshal d ≡ ok (record { rep = r.rep; rep_blocks = r.rep_blocks ++ ([] ∷ []) }))
unfolding Copies.marshal Copies.unmarshal
copies_round_trip r h =
    let lists : List (List BlockRef) = r.rep_blocks in
    let written : marshal_copies (r.rep - 1) 0 lists ≡ ok (copies_bytes lists) =
      ap (λ n. marshal_copies n 0 lists) (sym h.lists) ∙ marshal_copies_lem lists 0 lists refl in
    let few : leb i32_max r.rep ≡ false = ground (arith, h.rep_lt) in
    let filled : read_copies_of r.rep (copies_bytes lists)
        ≡ ok (record { rep = r.rep; rep_blocks = lists ++ ([] ∷ []) }) =
      filled_lem r.rep lists h.rep_pos h.lists h.copies in
    (
      write_i32 r.rep ++ copies_bytes lists,
      rw written refl,
      rw (read_i32-write r.rep (copies_bytes lists) h.rep_lt, few) filled,
    )

-- A stack that can be written: references made of words, checksums of 32 bits, and copies as above.
abbrev pub IsEncodable : Blockset → Type 0
IsEncodable (base b) = AllInRange b.blocks
IsEncodable (crc crcs sub) = AllChecksums crcs × IsEncodable sub
IsEncodable (rep r sub) = IsRepEncodable r × IsEncodable sub

-- The stack with the counter of the base layer at 0, and one more, empty list in each replication
-- layer.
abbrev pub reopened : Blockset → Blockset
reopened (base b) = base (record { ids = 0; blocks = b.blocks })
reopened (crc crcs sub) = crc crcs (reopened sub)
reopened (rep r sub) =
    rep (record { rep = r.rep; rep_blocks = r.rep_blocks ++ ([] ∷ []) }) (reopened sub)

module _ (atoi : String → Option ℕ) where
  layers_round_trip :
      (bs : Blockset)
      → IsEncodable bs
      → (ms : List LayerMessage) × (marshal_layers bs ≡ ok ms)
        × (unmarshal_layers atoi ms ≡ ok (some (reopened bs)))
  unfolding marshal_layers unmarshal_layers create_blockset create_rep make_rep make_crc fill_layer
      new_replication
  layers_round_trip (base b) h = (
    record { kind = 0; content = Base.marshal b.blocks } ∷ [],
    refl,
    rw (unmarshal-marshal b.blocks h) refl,
  )
  layers_round_trip (crc crcs sub) h =
      let (ms, written, read) = layers_round_trip sub h.1 in
      (
        record { kind = 1; content = Crc.marshal crcs } ∷ ms,
        rw written refl,
        rw (read, crc_unmarshal-marshal crcs h.0) refl,
      )
  layers_round_trip (rep r sub) h =
      let (ms, written, read) = layers_round_trip sub h.1 in
      let (d, copies, filled) = copies_round_trip r h.0 in
      (record { kind = 2; content = d } ∷ ms, rw (copies, written) refl, rw (read, filled) refl)

  -- A stack of any layers whose references are made of words, checksums have 32 bits, and lists of
  -- copies are as many as the replication asks for and shorter than 2 ^ 31, is marshaled, and
  -- unmarshaling that gives the stack with the counter of the base layer at 0 and one more, empty
  -- list in each replication layer.
  pub unmarshal_from_proto-marshal_layers :
      (bs : Blockset)
      → IsEncodable bs
      → (ms : List LayerMessage) × (marshal_layers bs ≡ ok ms)
        × (unmarshal_from_proto atoi ms ≡ ok (reopened bs))
  unfolding unmarshal_from_proto top_layer
  unmarshal_from_proto-marshal_layers bs h =
      let (ms, written, read) = layers_round_trip bs h in (ms, written, rw read refl)
