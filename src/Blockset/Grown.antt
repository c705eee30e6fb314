-- ===== src/Blockset/Grown.antt =====
-- Truncate of the replication layer to a greater length.
use torus.Base.{
  ℕ, zero, suc, ◌+◌, ◌-◌, ◌≤◌, ◌<◌, ◌≡◌, refl, ap, false, some, List, [], ◌∷◌, ◌++◌, arith, length,
  get_elem?, get_elem?_in, set, replicate, length-append, length-replicate, append-nil, leb, ok,
}
use torus.Refs.{BlockRef, zero_block}
use torus.Blockset.Replication.{ReplicationBlockset, truncate, extend_all}

set_same : {A : Type 0} (xs : List A) (i : ℕ) (v : A) → get_elem? xs i ≡ some v → set xs i v ≡ xs
set_same [] i v h = refl
set_same (x ∷ xs) zero v h = cc
set_same (x ∷ xs) (suc i) v h = ap (λ l. x ∷ l) (set_same xs i v h)

-- Once the first list has the length, no round adds anything.
extend_all_same :
    (n k i : ℕ) (first : List BlockRef) (rest : List (List BlockRef))
    → n ≤ length first
    → i + k ≤ length (first ∷ rest)
    → extend_all n k i (first ∷ rest) ≡ ok (first ∷ rest)
unfolding extend_all
extend_all_same n zero i first rest h l = refl
extend_all_same n (suc k) i first rest h l =
    let (list, at) = get_elem?_in (first ∷ rest) i (omega arith) in
    let nothing : n - length first ≡ 0 = omega arith in
    let same : set (first ∷ rest) i list ≡ first ∷ rest = set_same (first ∷ rest) i list at in
    rw (at, nothing, append-nil list, same) (extend_all_same n k (i + 1) first rest h (omega arith))

-- Truncate of a replication layer to a length above that of its first list of copies extends the
-- first list and leaves all others as they are.
pub truncate_grows_first :
    (b : ReplicationBlockset) (n : ℕ) (first : List BlockRef) (rest : List (List BlockRef))
    → b.rep_blocks ≡ first ∷ rest
    → length first < n
    → truncate b n
      ≡ ok (record b { rep_blocks = (first ++ replicate (n - length first) zero_block) ∷ rest })
unfolding truncate extend_all
truncate_grows_first b n first rest e h =
    let grown : List BlockRef = first ++ replicate (n - length first) zero_block in
    let pad : length (replicate (n - length first) zero_block) ≡ n - length first =
      length-replicate {A = BlockRef} (n - length first) zero_block in
    let size : n ≤ length grown =
      omega (arith, length-append first (replicate (n - length first) zero_block), pad) in
    let longer : leb n (length first) ≡ false = ground arith in
    rw (e, longer, extend_all_same n (length rest) 1 grown rest size (omega arith)) refl
