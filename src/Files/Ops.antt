-- ===== src/Files/Ops.antt =====
-- What a file calls of its blockset, a value `B`, and what a write to it does.
use torus.Base.{ℕ, ◌+◌, ◌≤◌, ◌≡◌, ◌≢◌, length, ◌==◌, if◌then◌else◌, Bytes, Outcome, ok}
use torus.Refs.{INodeRef}

pub record BlocksetOps (B : Type 0) : Type 0 where
  pub length_of : B → ℕ
  pub get_block : B → ℕ → Outcome Bytes
  pub put_block : B → INodeRef → ℕ → Bytes → Outcome (Unit {0}) × B
  pub truncate : B → ℕ → ℕ → Outcome (Unit {0}) × B
  pub trim : B → ℕ → ℕ → Outcome (Unit {0}) × B

module _ {B : Type 0} (o : BlocksetOps B) where
  -- `b'` is `b` with block `i` written, or appended.
  pub record IsPut (b : B) (i : ℕ) (d : Bytes) (b' : B) : Type 0 where
    pub read_back : o.get_block b' i ≡ ok d
    pub others : (j : ℕ) → i ≢ j → o.get_block b' j ≡ o.get_block b j
    pub within : i ≤ o.length_of b
    pub grown : o.length_of b' ≡ (if i == o.length_of b then o.length_of b + 1 else o.length_of b)

  -- The next PutBlock for the inode with data of the block size, if it succeeds, is a write.
  abbrev pub IsWritable : ℕ → INodeRef → B → Type 0
  IsWritable size ref b =
      (i : ℕ) (d : Bytes)
      → length d ≡ size
      → (o.put_block b ref i d).0 ≡ ok tt
      → IsPut b i d (o.put_block b ref i d).1

  -- Only blocks below the length can be read, and each has the block size.
  pub record IsSized (size : ℕ) (b : B) : Type 0 where
    pub sized : (i : ℕ) (d : Bytes) → o.get_block b i ≡ ok d → length d ≡ size
    pub inside : (i : ℕ) (d : Bytes) → o.get_block b i ≡ ok d → i + 1 ≤ o.length_of b
