-- ===== src/Blockset/Registry.antt =====
-- Making, marshaling and unmarshaling stacks of layers: blockset/blockset_main.go and
-- `MarshalBlocksetToProto` of blockset.go. `strconv.Atoi` is a parameter, which gives 0 for a
-- negative number: `make` panics on both. A CRC or replication layer that is made without a layer
-- below has a nil one, on which its calls panic; here making it does.
use Prim.Native.String.{String}
use text.Mathlib.Text.{◌==◌ as str_eq}
use torus.Base.{
  ℕ, Option, none, some, List, [], ◌∷◌, if◌then◌else◌, ◌==◌, Bytes, Outcome, ok, err, panic, Error,
  ◌>>=◌,
}
use torus.Blockset.Base
use torus.Blockset.Base.{BaseBlockset, new_base}
use torus.Blockset.Crc
use torus.Blockset.Replication.{new_replication, default_replication}
use torus.Blockset.Copies
use torus.Blockset.Layers.{Blockset, base, crc, rep}

-- The numbers of the layer kinds, as they are marshaled.
abbrev pub kind_base : ℕ
kind_base = 0

abbrev pub kind_crc : ℕ
kind_crc = 1

abbrev pub kind_replication : ℕ
kind_replication = 2

-- `torus.BlockLayer`
pub record BlockLayer : Type 0 where
  pub kind : ℕ
  pub options : String

-- `models.BlockLayer`, a marshaled layer
pub record LayerMessage : Type 0 where
  pub kind : ℕ
  pub content : Bytes

-- `Kind`
unfoldable pub kind_of : Blockset → ℕ
kind_of (base b) = kind_base
kind_of (crc crcs sub) = kind_crc
kind_of (rep r sub) = kind_replication

-- `MarshalBlocksetToProto`: the layers from the top down.
unfoldable pub marshal_layers : Blockset → Outcome (List LayerMessage)
marshal_layers (base b) = ok (record { kind = kind_base; content = Base.marshal b.blocks } ∷ [])
marshal_layers (crc crcs sub) = do
  below ← marshal_layers sub
  ok (record { kind = kind_crc; content = Crc.marshal crcs } ∷ below)
marshal_layers (rep r sub) = do
  content ← Copies.marshal r
  below ← marshal_layers sub
  ok (record { kind = kind_replication; content = content } ∷ below)

-- A layer made over the one below
unfoldable pub make_crc : Option Blockset → Outcome Blockset
make_crc none = panic
make_crc (some sub) = ok (crc [] sub)

unfoldable pub make_rep : ℕ → Option Blockset → Outcome Blockset
make_rep n none = panic
make_rep n (some sub) = do r ← new_replication n; ok (rep r sub)

module _ (atoi : String → Option ℕ) where
  -- The constructor that the replication layer registers
  unfoldable pub create_rep : String → Option Blockset → Outcome Blockset
  unfolding make_rep
  create_rep options sub =
      if str_eq options ""
      then make_rep default_replication sub
      else elim (atoi options) [ none ↦ err (Error.other 0) | some n ↦ make_rep n sub ]

  -- `createBlockset`: an unregistered kind calls a nil function.
  unfoldable pub create_blockset : BlockLayer → Option Blockset → Outcome Blockset
  unfolding make_crc create_rep
  create_blockset l sub =
      if l.kind == kind_base
      then ok (base new_base)
      else if l.kind == kind_crc
      then make_crc sub
      else if l.kind == kind_replication
      then create_rep l.options sub
      else panic

  -- `Unmarshal` on the layer made
  unfoldable pub fill_layer : Bytes → Blockset → Outcome Blockset
  fill_layer d (base b) = ok (base (record b { blocks = Base.unmarshal d }))
  fill_layer d (crc crcs sub) = ok (crc (Crc.unmarshal d) sub)
  fill_layer d (rep r sub) = do r' ← Copies.unmarshal d; ok (rep r' sub)

  -- The loop of `UnmarshalFromProto`, from the last layer up
  unfoldable pub unmarshal_layers : List LayerMessage → Outcome (Option Blockset)
  unfolding create_blockset fill_layer
  unmarshal_layers [] = ok none
  unmarshal_layers (m ∷ ms) = do
    sub ← unmarshal_layers ms
    made ← create_blockset (record { kind = m.kind; options = "" }) sub
    filled ← fill_layer m.content made
    ok (some filled)

  -- The layer that the loop has left; without any there is an error.
  unfoldable pub top_layer : Option Blockset → Outcome Blockset
  top_layer none = err (Error.other 1)
  top_layer (some bs) = ok bs

  unfoldable pub unmarshal_from_proto : List LayerMessage → Outcome Blockset
  unfolding unmarshal_layers top_layer
  unmarshal_from_proto layers = do top ← unmarshal_layers layers; top_layer top

  -- The loop of `CreateBlocksetFromSpec`
  unfoldable pub create_layers : List BlockLayer → Outcome (Option Blockset)
  unfolding create_blockset
  create_layers [] = ok none
  create_layers (l ∷ ls) = do sub ← create_layers ls; made ← create_blockset l sub; ok (some made)

  unfoldable pub create_from_spec : List BlockLayer → Outcome Blockset
  unfolding create_layers top_layer
  create_from_spec spec = do top ← create_layers spec; top_layer top

-- `ParseBlockLayerKind` on the lower-case name
unfoldable pub parse_kind : String → Outcome ℕ
parse_kind s =
    if str_eq s "base"
    then ok kind_base
    else if str_eq s "crc"
    then ok kind_crc
    else if str_eq s "rep"
    then ok kind_replication
    else if str_eq s "r"
    then ok kind_replication
    else err (Error.other 2)
