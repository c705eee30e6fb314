-- ===== src/Bitset.antt =====
-- The bit set of the TDP protocol: distributor/protocols/tdp/bitset.go.
pub mod Bits
pub mod Boolean
mod Checks
use Prim.Native.Nat.{bit_or, bit_and, bit_xor}
use torus.Base.{
  ℕ, zero, suc, ◌+◌, ◌-◌, ◌/◌, ◌%◌, ◌^◌, Bool, true, false, not, List, [], ◌∷◌, ◌++◌, length,
  get_or, set, leb, ◌==◌, if◌then◌else◌, Bytes,
}

-- `0x01 << uint(i%8)`, a byte
abbrev pub mask : ℕ → ℕ
mask i = 2 ^ (i % 8)

-- `for len(b) <= off { b = append(b, 0x00) }`, on the number of rounds
unfoldable pub grow : ℕ → Bytes → Bytes
grow zero b = b
grow (suc k) b = grow k (b ++ (0 ∷ []))

abbrev pub grow_to : ℕ → Bytes → Bytes
grow_to off b = grow (off + 1 - length b) b

-- `bitset.set`
unfoldable pub set_bit : Bytes → ℕ → Bytes
set_bit b i = let g = grow_to (i / 8) b in set g (i / 8) (bit_or (get_or g (i / 8) 0) (mask i))

-- `bitset.unset`; on a byte `x &^ m` is `x & (0xff ^ m)`.
unfoldable pub unset_bit : Bytes → ℕ → Bytes
unset_bit b i =
    let g = grow_to (i / 8) b in set g (i / 8) (bit_and (get_or g (i / 8) 0) (bit_xor 255 (mask i)))

-- `bitset.test`
unfoldable pub test_bit : Bytes → ℕ → Bool
test_bit b i =
    if leb (length b) (i / 8) then false else not (bit_and (get_or b (i / 8) 0) (mask i) == 0)

-- The loop of `bitsetFromBool`, from index `i` on.
unfoldable pub from_bool_loop : ℕ → List Bool → Bytes → Bytes
from_bool_loop i [] b = b
from_bool_loop i (x ∷ xs) b = from_bool_loop (i + 1) xs (if x then set_bit b i else unset_bit b i)

unfoldable pub from_bool : List Bool → Bytes
from_bool xs = from_bool_loop 0 xs []

-- The loop of `toBool`: `n` rounds from index `i` on.
unfoldable pub to_bool_loop : ℕ → ℕ → Bytes → List Bool
to_bool_loop zero i b = []
to_bool_loop (suc n) i b = test_bit b i ∷ to_bool_loop n (i + 1) b

unfoldable pub to_bool : Bytes → ℕ → List Bool
to_bool b n = to_bool_loop n 0 b
