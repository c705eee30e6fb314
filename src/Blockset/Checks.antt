-- ===== src/Blockset/Checks.antt =====
-- Runs of stacks of layers: encodings, and Truncate.
use Prim.Native.String.{String}
use torus.Base.{
  ℕ, ◌+◌, ◌≡◌, refl, Option, none, some, List, [], ◌∷◌, ◌++◌, arith, length, replicate, Bytes, ok,
}
use torus.Refs.{BlockRef, zero_block}
use torus.Store.Temp.{TempBlockStore}
use torus.Store.Temp.Reads.{temp_store}
use torus.Blockset.Replication.{ReplicationBlockset}
use torus.Blockset.Replication
use torus.Blockset.Grown.{truncate_grows_first}
use torus.Blockset.Layers.{Blockset, base, crc, rep, length_of, truncate}
use torus.Blockset.Layers.Truncates.{IsTruncated, truncate-IsTruncated}
use torus.Blockset.Registry.{
  LayerMessage, create_blockset, marshal_layers, unmarshal_from_proto, create_from_spec,
}
use torus.Blockset.Reopened.{
  IsEncodable, IsRepEncodable, reopened, unmarshal_from_proto-marshal_layers,
}

abbrev no_number : String → Option ℕ
no_number s = none

abbrev count_bytes : Bytes → ℕ
count_bytes d = length d + 1

abbrev block_1 : BlockRef
block_1 = record { inode_ref = record { volume = 1; inode = 2 }; index = 1 }

abbrev block_2 : BlockRef
block_2 = record { inode_ref = record { volume = 1; inode = 2 }; index = 2 }

-- Two copies of one block.
abbrev copied : ReplicationBlockset
copied = record { rep = 2; rep_blocks = (block_2 ∷ []) ∷ [] }

abbrev checked_file : Blockset
checked_file = crc (3 ∷ []) (base (record { ids = 2; blocks = block_1 ∷ [] }))

abbrev copied_file : Blockset
copied_file = rep copied checked_file

-- The default layers, "crc,base".
default_layers :
    create_from_spec no_number
      (record { kind = 1; options = "" } ∷ record { kind = 0; options = "" } ∷ [])
    ≡ ok (crc [] (base (record { ids = 0; blocks = [] })))
unfolding create_from_spec create_blockset
default_layers = refl

copied-IsRepEncodable : IsRepEncodable copied
copied-IsRepEncodable = record {
  rep_pos = omega arith;
  rep_lt = omega arith;
  lists = refl;
  copies = ((omega arith, (omega arith, tt)), tt);
}

copied_file-IsEncodable : IsEncodable copied_file
copied_file-IsEncodable = (copied-IsRepEncodable, ((omega arith, tt), (omega arith, tt)))

unmarshal_from_proto-marshal_layers_example :
    (ms : List LayerMessage) × (marshal_layers copied_file ≡ ok ms)
    × (unmarshal_from_proto no_number ms ≡ ok (reopened copied_file))
unmarshal_from_proto-marshal_layers_example =
    unmarshal_from_proto-marshal_layers no_number copied_file copied_file-IsEncodable

-- Three copies of one block.
abbrev copied_twice : ReplicationBlockset
copied_twice = record { rep = 3; rep_blocks = (block_1 ∷ []) ∷ ((block_2 ∷ []) ∷ []) }

truncate_grows_first_example :
    Replication.truncate copied_twice 3
    ≡ ok (record copied_twice {
      rep_blocks = ((block_1 ∷ []) ++ replicate 2 zero_block) ∷ ((block_2 ∷ []) ∷ []);
    })
truncate_grows_first_example =
    truncate_grows_first copied_twice 3 (block_1 ∷ []) ((block_2 ∷ []) ∷ []) refl (omega arith)

abbrev some_store : TempBlockStore
some_store = record { store = some ((block_1, 7 ∷ 8 ∷ []) ∷ []); n_blocks = 4; block_size = 2 }

truncate-IsTruncated_example :
    (bs' : Blockset) × (truncate temp_store count_bytes checked_file 3 2 ≡ ok bs')
    × IsTruncated temp_store count_bytes some_store 3 checked_file bs'
unfolding length_of
truncate-IsTruncated_example =
    truncate-IsTruncated temp_store count_bytes some_store 3 checked_file (refl, tt)
