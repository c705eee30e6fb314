-- ===== src/Base/Results.antt =====
-- What a call returns: a value, one of the errors of errors.go (or another one), or a panic.
use Prim.Native.Nat.{ℕ}
use mathlib.Core.Option.{Option, none, some}

-- The sentinel values of errors.go; `other` stands for an
-- `errors.New` made on the spot, told apart by a number.
pub data Error : Type 0 where
  block_unavailable : Error
  block_not_exist : Error
  closed : Error
  invalid : Error
  out_of_space : Error
  exists_already : Error
  not_exist : Error
  non_sequential_ring : Error
  no_peer : Error
  locked : Error
  inode_unavailable : Error
  again : Error
  no_global_metadata : Error
  compare_failed : Error
  is_symlink : Error
  not_dir : Error
  wrong_volume_type : Error
  not_supported : Error
  lease_not_found : Error
  usage : Error
  other : ℕ → Error

pub data Outcome {ℓ} (A : Type ℓ) : Type ℓ where
  ok : A → Outcome A
  err : Error → Outcome A
  panic : Outcome A

infixl 5 ◌>>=◌ ◌>>◌
abbrev pub ◌>>=◌ {ℓ κ} : {A : Type ℓ} {B : Type κ} → Outcome A → (A → Outcome B) → Outcome B
ok a >>= f = f a
err e >>= f = err e
panic >>= f = panic

abbrev pub ◌>>◌ {ℓ} : {B : Type ℓ} → Outcome (Unit {0}) → Outcome B → Outcome B
m >> k = m >>= λ _. k

-- An index expression: out of range it panics.
abbrev pub or_panic {ℓ} : {A : Type ℓ} → Option A → Outcome A
or_panic none = panic
or_panic (some a) = ok a
