-- ===== src/Bitset/Bits.antt =====
-- One bit at a time: what set and unset do to every test.
use Prim.Native.Nat.{bit_or, bit_and, bit_xor, bit_and-bitwise}
use torus.Base.{
  ℕ, zero, suc, ◌+◌, ◌-◌, ◌/◌, ◌%◌, ◌^◌, ◌<◌, ◌≡◌, refl, sym, ap, ◌∙◌, Bool, true, false, not, ◌&&◌,
  [], ◌∷◌, ◌++◌, arith, inl, inr, length, get_or, set, leb, ◌==◌, if◌then◌else◌, Bytes,
  length-append, get_or-set_self, get_or-set_ne, get_or-append_default, get_or_out, all_below,
  all_below_sound, Bool-cases, ==_iff,
}
use torus.Bitset.{mask, grow, grow_to, set_bit, unset_bit, test_bit}

-- Every element of the slice is a byte.
abbrev pub IsBytes : Bytes → Type 0
IsBytes b = (i : ℕ) → get_or b i 0 < 256

same : Bool → Bool → Bool
same a b = if a then b else not b

same-eq : (a b : Bool) → same a b ≡ true → a ≡ b
unfolding same
same-eq true b h = sym h
same-eq false true h = h
same-eq false false h = refl

-- The bit at `l` after a write at `k`, for one byte: by evaluation of all cases.
abbrev bit_of : ℕ → ℕ → Bool
bit_of x l = not (bit_and x (2 ^ l) == 0)

or_case : ℕ → ℕ → ℕ → Bool
or_case x k l = same (bit_of (bit_or x (2 ^ k)) l) (if l == k then true else bit_of x l)

and_not_case : ℕ → ℕ → ℕ → Bool
and_not_case x k l =
    same (bit_of (bit_and x (bit_xor 255 (2 ^ k))) l) (if l == k then false else bit_of x l)

byte_case : ℕ → ℕ → Bool
byte_case x k = leb (bit_or x (2 ^ k)) 255 && leb (bit_and x (bit_xor 255 (2 ^ k))) 255

or_table : all_below 256 (λ x. all_below 8 (λ k. all_below 8 (λ l. or_case x k l))) ≡ true
unfolding or_case same
or_table = refl

and_not_table : all_below 256 (λ x. all_below 8 (λ k. all_below 8 (λ l. and_not_case x k l))) ≡ true
unfolding and_not_case same
and_not_table = refl

byte_table : all_below 256 (λ x. all_below 8 (λ k. byte_case x k)) ≡ true
unfolding byte_case
byte_table = refl

or_bit :
    (x k l : ℕ)
    → x < 256
    → k < 8
    → l < 8
    → bit_of (bit_or x (2 ^ k)) l ≡ (if l == k then true else bit_of x l)
unfolding or_case
or_bit x k l hx hk hl =
    let by_x =
      all_below_sound 256 (λ x. all_below 8 (λ k. all_below 8 (λ l. or_case x k l))) x or_table
        hx in
    let by_k = all_below_sound 8 (λ k. all_below 8 (λ l. or_case x k l)) k by_x hk in
    same-eq (bit_of (bit_or x (2 ^ k)) l) (if l == k then true else bit_of x l)
      (all_below_sound 8 (λ l. or_case x k l) l by_k hl)

and_not_bit :
    (x k l : ℕ)
    → x < 256
    → k < 8
    → l < 8
    → bit_of (bit_and x (bit_xor 255 (2 ^ k))) l ≡ (if l == k then false else bit_of x l)
unfolding and_not_case
and_not_bit x k l hx hk hl =
    let by_x =
      all_below_sound 256 (λ x. all_below 8 (λ k. all_below 8 (λ l. and_not_case x k l))) x
        and_not_table hx in
    let by_k = all_below_sound 8 (λ k. all_below 8 (λ l. and_not_case x k l)) k by_x hk in
    same-eq (bit_of (bit_and x (bit_xor 255 (2 ^ k))) l) (if l == k then false else bit_of x l)
      (all_below_sound 8 (λ l. and_not_case x k l) l by_k hl)

byte_bounds :
    (x k : ℕ) → x < 256 → k < 8 → (bit_or x (2 ^ k) < 256) × (bit_and x (bit_xor 255 (2 ^ k)) < 256)
unfolding byte_case
byte_bounds x k hx hk =
    let by_x = all_below_sound 256 (λ x. all_below 8 (λ k. byte_case x k)) x byte_table hx in
    let here = all_below_sound 8 (λ k. byte_case x k) k by_x hk in ground (arith, here)

length-grow : (k : ℕ) (b : Bytes) → length (grow k b) ≡ length b + k
unfolding grow
length-grow zero b = omega arith
length-grow (suc k) b = omega (arith, length-grow k (b ++ (0 ∷ [])), length-append b (0 ∷ []))

get_or-grow : (k : ℕ) (b : Bytes) (i : ℕ) → get_or (grow k b) i 0 ≡ get_or b i 0
unfolding grow
get_or-grow zero b i = refl
get_or-grow (suc k) b i = get_or-grow k (b ++ (0 ∷ [])) i ∙ get_or-append_default b i 0

-- Out of range a bit reads as unset, as a zero byte would.
test_bit_lem : (b : Bytes) (i : ℕ) → test_bit b i ≡ bit_of (get_or b (i / 8) 0) (i % 8)
unfolding test_bit
test_bit_lem b i = elim (Bool-cases (leb (length b) (i / 8))) [
  | inl out ↦
      rw (out, get_or_out b (i / 8) 0 (ground arith))
        (ap (λ x. not (x == 0)) (sym (bit_and-bitwise 0 (mask i))))
  | inr inside ↦ rw inside
]

-- A write to the grown slice, read at any byte.
get_or-write :
    (b : Bytes) (off j v : ℕ)
    → get_or (set (grow_to off b) off v) j 0 ≡ (if j == off then v else get_or b j 0)
get_or-write b off j v = elim (Bool-cases (j == off)) [
  | inl e ↦
      let at : j ≡ off = (==_iff j off).0 e in
      rw e (
        rw at (
          get_or-set_self (grow_to off b) off v 0
            (omega (arith, length-grow (off + 1 - length b) b))))
  | inr ne ↦ rw ne (
      get_or-set_ne (grow_to off b) off j v 0 (λ p. ground arith)
      ∙ get_or-grow (off + 1 - length b) b j)
]

split_index : (i j : ℕ) → (j == i) ≡ ((j / 8 == i / 8) && (j % 8 == i % 8))
split_index i j = ground arith

-- After `set` on a slice of bytes, the bit at `i` is on and every other bit is as it was, also
-- behind the end.
pub test_bit-set_bit :
    (b : Bytes) (i j : ℕ)
    → IsBytes b
    → test_bit (set_bit b i) j ≡ (if j == i then true else test_bit b j)
unfolding set_bit
test_bit-set_bit b i j h = ground (
  arith,
  test_bit_lem (set_bit b i) j,
  test_bit_lem b j,
  get_or-write b (i / 8) (j / 8) (bit_or (get_or (grow_to (i / 8) b) (i / 8) 0) (mask i)),
  get_or-grow (i / 8 + 1 - length b) b (i / 8),
  or_bit (get_or b (i / 8) 0) (i % 8) (j % 8) (h (i / 8)) (omega arith) (omega arith),
  split_index i j,
)

-- After `unset` on a slice of bytes, the bit at `i` is off and every other bit is as it was, also
-- behind the end.
pub test_bit-unset_bit :
    (b : Bytes) (i j : ℕ)
    → IsBytes b
    → test_bit (unset_bit b i) j ≡ (if j == i then false else test_bit b j)
unfolding unset_bit
test_bit-unset_bit b i j h = ground (
  arith,
  test_bit_lem (unset_bit b i) j,
  test_bit_lem b j,
  get_or-write b (i / 8) (j / 8)
      (bit_and (get_or (grow_to (i / 8) b) (i / 8) 0) (bit_xor 255 (mask i))),
  get_or-grow (i / 8 + 1 - length b) b (i / 8),
  and_not_bit (get_or b (i / 8) 0) (i % 8) (j % 8) (h (i / 8)) (omega arith) (omega arith),
  split_index i j,
)

-- Both keep the elements bytes.
pub set_bit-IsBytes : (b : Bytes) (i : ℕ) → IsBytes b → IsBytes (set_bit b i)
unfolding set_bit
set_bit-IsBytes b i h j = ground (
  arith,
  h j,
  get_or-write b (i / 8) j (bit_or (get_or (grow_to (i / 8) b) (i / 8) 0) (mask i)),
  get_or-grow (i / 8 + 1 - length b) b (i / 8),
  byte_bounds (get_or b (i / 8) 0) (i % 8) (h (i / 8)) (omega arith),
)

pub unset_bit-IsBytes : (b : Bytes) (i : ℕ) → IsBytes b → IsBytes (unset_bit b i)
unfolding unset_bit
unset_bit-IsBytes b i h j = ground (
  arith,
  h j,
  get_or-write b (i / 8) j (bit_and (get_or (grow_to (i / 8) b) (i / 8) 0) (bit_xor 255 (mask i))),
  get_or-grow (i / 8 + 1 - length b) b (i / 8),
  byte_bounds (get_or b (i / 8) 0) (i % 8) (h (i / 8)) (omega arith),
)
