-- ===== src/Bitset/Boolean.antt =====
-- The whole trip: a slice of booleans into a bit set and back.
use torus.Base.{
  ℕ, zero, suc, ◌+◌, ◌-◌, ◌≤◌, ◌<◌, ◌≡◌, refl, ap, ◌∙◌, Bool, true, false, List, [], ◌∷◌, arith,
  length, get_or, ltb, ◌==◌, if◌then◌else◌, Bytes, get_or_ext,
}
use torus.Bitset.{set_bit, unset_bit, test_bit, from_bool, from_bool_loop, to_bool, to_bool_loop}
use torus.Bitset.Bits.{
  IsBytes, test_bit-set_bit, test_bit-unset_bit, set_bit-IsBytes, unset_bit-IsBytes,
}

-- One round of the loop.
put_bit : Bytes → ℕ → Bool → Bytes
put_bit b i x = if x then set_bit b i else unset_bit b i

put_bit-IsBytes : (b : Bytes) (i : ℕ) (x : Bool) → IsBytes b → IsBytes (put_bit b i x)
unfolding put_bit
put_bit-IsBytes b i true h = set_bit-IsBytes b i h
put_bit-IsBytes b i false h = unset_bit-IsBytes b i h

test_bit-put_bit :
    (b : Bytes) (i j : ℕ) (x : Bool)
    → IsBytes b
    → test_bit (put_bit b i x) j ≡ (if j == i then x else test_bit b j)
unfolding put_bit
test_bit-put_bit b i j true h = test_bit-set_bit b i j h
test_bit-put_bit b i j false h = test_bit-unset_bit b i j h

-- The loop writes the bits from `i` on, and leaves those below `i` and behind the input alone.
test_bit-from_bool_loop :
    (i : ℕ) (xs : List Bool) (b : Bytes) (j : ℕ)
    → IsBytes b
    → test_bit (from_bool_loop i xs b) j ≡ (
        if ltb j i
        then test_bit b j
        else if ltb j (i + length xs)
        then get_or xs (j - i) false
        else test_bit b j)
unfolding from_bool_loop put_bit
test_bit-from_bool_loop i [] b j h = ground arith
test_bit-from_bool_loop i (x ∷ xs) b j h =
    test_bit-from_bool_loop (i + 1) xs (put_bit b i x) j (put_bit-IsBytes b i x h)
    ∙ ground (arith, test_bit-put_bit b i j x h, next)
  where
    next : i < j → get_or (x ∷ xs) (j - i) false ≡ get_or xs (j - (i + 1)) false
    next l = let e : j - i ≡ suc (j - (i + 1)) = omega arith in rw e

length-to_bool_loop : (n i : ℕ) (b : Bytes) → length (to_bool_loop n i b) ≡ n
unfolding to_bool_loop
length-to_bool_loop zero i b = refl
length-to_bool_loop (suc n) i b = ap suc (length-to_bool_loop n (i + 1) b)

get_or-to_bool_loop :
    (n i j : ℕ) (b : Bytes) → j < n → get_or (to_bool_loop n i b) j false ≡ test_bit b (i + j)
unfolding to_bool_loop
get_or-to_bool_loop zero i j b h = elim h [ ]
get_or-to_bool_loop (suc n) i zero b h = ap (test_bit b) (omega arith)
get_or-to_bool_loop (suc n) i (suc j) b h =
    get_or-to_bool_loop n (i + 1) j b (omega arith) ∙ ap (test_bit b) (omega arith)

empty-IsBytes : IsBytes []
empty-IsBytes i = omega arith

-- Every bit of a set made from booleans is the boolean at its index, and off behind the input.
pub test_bit-from_bool : (xs : List Bool) (j : ℕ) → test_bit (from_bool xs) j ≡ get_or xs j false
unfolding from_bool test_bit
test_bit-from_bool xs j = test_bit-from_bool_loop 0 xs [] j empty-IsBytes ∙ ground (arith, beyond)
  where
    open_end : (ys : List Bool) (k : ℕ) → length ys ≤ k → get_or ys k false ≡ false
    open_end [] k h = refl
    open_end (y ∷ ys) zero h = absurd (omega arith)
    open_end (y ∷ ys) (suc k) h = open_end ys k (omega arith)

    beyond : length xs ≤ j → get_or xs j false ≡ false
    beyond h = open_end xs j h

-- Packing booleans into bytes and unpacking as many gives them back.
pub to_bool-from_bool : (xs : List Bool) → to_bool (from_bool xs) (length xs) ≡ xs
unfolding to_bool
to_bool-from_bool xs =
    get_or_ext false (to_bool_loop (length xs) 0 (from_bool xs)) xs
      (length-to_bool_loop (length xs) 0 (from_bool xs))
      (λ i l.
        get_or-to_bool_loop (length xs) 0 i (from_bool xs)
          (rw (length-to_bool_loop (length xs) 0 (from_bool xs)) at l)
        ∙ ap (test_bit (from_bool xs)) (omega arith)
        ∙ test_bit-from_bool xs i)
