-- ===== src/Bitset/Checks.antt =====
-- Runs of the bit set, and instances of its laws.
use torus.Base.{zero, suc, ◌≡◌, refl, Bool, true, false, [], ◌∷◌, arith, List, Bytes}
use torus.Bitset.{set_bit, unset_bit, test_bit, from_bool, to_bool, grow, from_bool_loop}
use torus.Bitset.Bits.{IsBytes, test_bit-set_bit, test_bit-unset_bit}
use torus.Bitset.Boolean.{to_bool-from_bool, test_bit-from_bool}

abbrev two_bytes : Bytes
two_bytes = 5 ∷ 128 ∷ []

two_bytes-IsBytes : IsBytes two_bytes
two_bytes-IsBytes zero = omega arith
two_bytes-IsBytes (suc zero) = omega arith
two_bytes-IsBytes (suc (suc i)) = omega arith

set_grows : set_bit two_bytes 17 ≡ 5 ∷ 128 ∷ 2 ∷ []
unfolding set_bit grow
set_grows = refl

unset_clears : unset_bit two_bytes 2 ≡ 1 ∷ 128 ∷ []
unfolding unset_bit grow
unset_clears = refl

abbrev ten_flags : List Bool
ten_flags = true ∷ false ∷ true ∷ false ∷ false ∷ false ∷ false ∷ true ∷ true ∷ false ∷ []

packs : from_bool ten_flags ≡ 133 ∷ 1 ∷ []
unfolding from_bool from_bool_loop set_bit unset_bit grow
packs = refl

test_bit-set_bit_example : test_bit (set_bit two_bytes 17) 15 ≡ test_bit two_bytes 15
test_bit-set_bit_example = test_bit-set_bit two_bytes 17 15 two_bytes-IsBytes

test_bit-unset_bit_example : test_bit (unset_bit two_bytes 15) 15 ≡ false
test_bit-unset_bit_example = test_bit-unset_bit two_bytes 15 15 two_bytes-IsBytes

to_bool-from_bool_example : to_bool (from_bool ten_flags) 10 ≡ ten_flags
to_bool-from_bool_example = to_bool-from_bool ten_flags

test_bit-from_bool_example : test_bit (from_bool ten_flags) 7 ≡ true
test_bit-from_bool_example = test_bit-from_bool ten_flags 7
