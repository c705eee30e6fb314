-- ===== src/RefMap.antt =====
-- Go's `map[torus.BlockRef]V` as an association list: one entry for each key, in some order.
use torus.Base.{
  ℕ, suc, ◌≤◌, ◌≡◌, ◌≢◌, refl, ◌∙◌, List, [], ◌∷◌, Option, none, some, arith, inl, inr, length,
  if◌then◌else◌, Bool-cases,
}
use torus.Refs.{BlockRef, block_ref_eq}
use torus.Refs.Fields.{block_ref_eq_iff, block_ref_eq_refl}

abbrev pub RefMap {ℓ} : Type ℓ → Type ℓ
RefMap V = List (BlockRef × V)

module _ {ℓ} {V : Type ℓ} where
  abbrev pub lookup : BlockRef → RefMap V → Option V
  lookup k [] = none
  lookup k ((j, v) ∷ m) = if block_ref_eq j k then some v else lookup k m

  abbrev pub insert : BlockRef → V → RefMap V → RefMap V
  insert k v [] = (k, v) ∷ []
  insert k v ((j, w) ∷ m) = if block_ref_eq j k then (j, v) ∷ m else (j, w) ∷ insert k v m

  abbrev pub erase : BlockRef → RefMap V → RefMap V
  erase k [] = []
  erase k ((j, w) ∷ m) = let rest = erase k m in if block_ref_eq j k then rest else (j, w) ∷ rest

  -- `len` of the map
  abbrev pub size : RefMap V → ℕ
  size m = length m

module _ {ℓ} {V : Type ℓ} where
  pub lookup-insert :
      (k j : BlockRef) (v : V) (m : RefMap V)
      → lookup j (insert k v m) ≡ (if block_ref_eq k j then some v else lookup j m)
  lookup-insert k j v [] = refl
  lookup-insert k j v ((i, w) ∷ m) = ground (
    arith,
    block_ref_eq_iff k j,
    block_ref_eq_iff i k,
    block_ref_eq_iff i j,
    lookup-insert k j v m,
  )

  pub lookup-erase :
      (k j : BlockRef) (m : RefMap V)
      → lookup j (erase k m) ≡ (if block_ref_eq k j then none else lookup j m)
  lookup-erase k j [] = ground arith
  lookup-erase k j ((i, w) ∷ m) =
      ground (
        arith,
        block_ref_eq_iff k j,
        block_ref_eq_iff i k,
        block_ref_eq_iff i j,
        lookup-erase k j m,
      )

  pub lookup-insert_self : (k : BlockRef) (v : V) (m : RefMap V) → lookup k (insert k v m) ≡ some v
  lookup-insert_self k v m = lookup-insert k k v m ∙ rw (block_ref_eq_refl k)

  pub lookup-insert_ne :
      (k j : BlockRef) (v : V) (m : RefMap V) → k ≢ j → lookup j (insert k v m) ≡ lookup j m
  lookup-insert_ne k j v m ne = ground (arith, lookup-insert k j v m, block_ref_eq_iff k j)

  -- A new key adds an entry, a known one does not.
  pub size-insert :
      (k : BlockRef) (v : V) (m : RefMap V)
      → size (insert k v m) ≡ (elim (lookup k m) [ none ↦ suc (size m) | some w ↦ size m ])
  size-insert k v [] = refl
  size-insert k v ((i, w) ∷ m) = elim (Bool-cases (block_ref_eq i k)) [
    | inl e ↦ rw e
    | inr e ↦ rw e (ground (arith, size-insert k v m))
  ]

  pub size-erase : (k : BlockRef) (m : RefMap V) → size (erase k m) ≤ size m
  size-erase k [] = omega arith
  size-erase k ((i, w) ∷ m) = ground (arith, size-erase k m)
