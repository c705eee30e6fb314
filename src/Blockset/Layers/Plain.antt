-- ===== src/Blockset/Layers/Plain.antt =====
-- Stacks of base and CRC layers, such as the default "crc,base": their invariant.
use torus.Base.{
  ℕ, ◌+◌, ◌≤◌, ◌<◌, ◌≡◌, ◌≢◌, sym, ap, ◌∙◌, true, some, arith, inl, inr, ◌⊎◌, length, get_elem?,
  ◌==◌, Bool-cases, u64_mod,
}
use torus.Refs.{INodeRef, BlockRef, is_zero}
use torus.Store.Interface.{IsUsable}
use torus.Blockset.Base.{BaseBlockset, made_id, next_id, put_at}
use torus.Blockset.Indexing.{get_elem?-put_at_self, get_elem?-put_at_ne}
use torus.Blockset.Layers.{Blockset, base, crc, rep, length_of}

-- No replication layer, and as many checksums as blocks below.
abbrev pub IsPlain : Blockset → Type 0
IsPlain (base b) = Unit
IsPlain (crc crcs sub) = (length crcs ≡ length_of sub) × IsPlain sub
IsPlain (rep r sub) = ⊥

abbrev pub base_of : Blockset → BaseBlockset
base_of (base b) = b
base_of (crc crcs sub) = base_of sub
base_of (rep r sub) = base_of sub

-- Every entry is a zero block, or a usable reference whose number was given out already if it
-- belongs to the inode that is being written.
abbrev pub IsFresh : INodeRef → BaseBlockset → Type 0
IsFresh inode b =
    (j : ℕ) (r : BlockRef)
    → get_elem? b.blocks j ≡ some r
    → (is_zero r ≡ true) ⊎ (IsUsable r × (r.inode_ref ≡ inode → r.index ≤ b.ids))

-- The inode's numbers are words, and the counter has room for one more.
pub record HasRoom (inode : INodeRef) (b : BaseBlockset) : Type 0 where
  pub volume_lt : inode.volume < u64_mod
  pub inode_lt : inode.inode < u64_mod
  pub ids_lt : b.ids + 1 < u64_mod

pub next_id_lem : (inode : INodeRef) (b : BaseBlockset) → HasRoom inode b → next_id b ≡ b.ids + 1
next_id_lem inode b h = omega arith

pub made_id-IsUsable :
    (inode : INodeRef) (b : BaseBlockset) → HasRoom inode b → IsUsable (made_id b inode)
made_id-IsUsable inode b h = record {
  in_range = record {
    volume_lt = h.volume_lt;
    inode_lt = h.inode_lt;
    index_lt = omega (arith, h.ids_lt);
  };
  nonzero = λ e.
      let zero_index : next_id b ≡ 0 = ap (λ (r : BlockRef). r.index) e in
      omega (arith, zero_index, next_id_lem inode b h);
}

-- A new reference is none of those in use.
pub made_id_new :
    (inode : INodeRef) (b : BaseBlockset) (r : BlockRef)
    → HasRoom inode b
    → (r.inode_ref ≡ inode → r.index ≤ b.ids)
    → made_id b inode ≢ r
made_id_new inode b r h old e =
    let same : inode ≡ r.inode_ref = ap (λ (q : BlockRef). q.inode_ref) e in
    let index : next_id b ≡ r.index = ap (λ (q : BlockRef). q.index) e in
    omega (arith, old (sym same), index, next_id_lem inode b h)

-- The base layer after a write at `i`.
abbrev pub base_put : BaseBlockset → INodeRef → ℕ → BaseBlockset
base_put b inode i = record { ids = next_id b; blocks = put_at b.blocks i (made_id b inode) }

pub base_put-IsFresh :
    (inode : INodeRef) (b : BaseBlockset) (i : ℕ)
    → HasRoom inode b
    → i ≤ length b.blocks
    → IsFresh inode b
    → IsFresh inode (base_put b inode i)
base_put-IsFresh inode b i h l fresh j r known = elim (Bool-cases (i == j)) [
  | inl same ↦
      let at : i ≡ j = ground arith in
      let new : made_id b inode ≡ r =
        ground (arith, get_elem?-put_at_self b.blocks i (made_id b inode) l, known, at) in
      inr (rw (← new) (made_id-IsUsable inode b h), λ e. rw (← new) (omega arith))
  | inr other ↦
      let old : get_elem? b.blocks j ≡ some r =
        sym (get_elem?-put_at_ne b.blocks i j (made_id b inode) l (λ e. ground arith)) ∙ known in
      keep_old (fresh j r old)
]
  where
    keep_old :
        (is_zero r ≡ true) ⊎ (IsUsable r × (r.inode_ref ≡ inode → r.index ≤ b.ids))
        → (is_zero r ≡ true) ⊎ (IsUsable r × (r.inode_ref ≡ inode → r.index ≤ next_id b))
    keep_old (inl z) = inl z
    keep_old (inr (u, old)) = inr (u, λ e. omega (arith, old e, next_id_lem inode b h))
