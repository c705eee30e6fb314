-- ===== src/Base/Words.antt =====
-- Unsigned words and their little-endian bytes, as `encoding/binary` lays them out.
use Prim.Native.Nat.{ℕ, zero, suc, ◌+◌, ◌*◌, ◌/◌, ◌%◌, ◌^◌, ◌<◌}
use mathlib.Core.Path.{◌≡◌, refl, sym, subst, ◌∙◌, ap, ap₂}
use mathlib.Core.List.{List, [], ◌∷◌}
use native.Mathlib.Omega.{arith}
use torus.Base.Lists.{length, take, drop}

abbrev pub Bytes : Type 0
Bytes = List ℕ

abbrev pub u32_mod : ℕ
u32_mod = 2 ^ 32

abbrev pub u64_mod : ℕ
u64_mod = 2 ^ 64

-- The `k` low bytes of `v`, lowest first.
abbrev pub le_bytes : ℕ → ℕ → Bytes
le_bytes zero v = []
le_bytes (suc k) v = v % 256 ∷ le_bytes k (v / 256)

abbrev pub le_value : Bytes → ℕ
le_value [] = 0
le_value (b ∷ bs) = b + 256 * le_value bs

-- The range of a word of `k` bytes: `Fits 8 v` says `v < 2 ^ 64`.
abbrev pub Fits : ℕ → ℕ → Type 0
Fits zero v = v ≡ 0
Fits (suc k) v = Fits k (v / 256)

pub length-le_bytes : (k v : ℕ) → length (le_bytes k v) ≡ k
length-le_bytes zero v = refl
length-le_bytes (suc k) v = ap suc (length-le_bytes k (v / 256))

pub le_value-le_bytes : (k v : ℕ) → Fits k v → le_value (le_bytes k v) ≡ v
le_value-le_bytes zero v h = omega arith
le_value-le_bytes (suc k) v h = omega (arith, le_value-le_bytes k (v / 256) h)

pub Fits-u64 : (v : ℕ) → v < u64_mod → Fits 8 v
Fits-u64 v h = omega arith

pub Fits-u32 : (v : ℕ) → v < u32_mod → Fits 4 v
Fits-u32 v h = omega arith

-- Every element is a byte.
abbrev pub AllBytes : Bytes → Type 0
AllBytes [] = Unit
AllBytes (b ∷ bs) = (b < 256) × AllBytes bs

pub le_bytes-le_value : (bs : Bytes) → AllBytes bs → le_bytes (length bs) (le_value bs) ≡ bs
le_bytes-le_value [] h = refl
le_bytes-le_value (b ∷ bs) h =
    let low : (b + 256 * le_value bs) % 256 ≡ b = omega arith in
    let high : (b + 256 * le_value bs) / 256 ≡ le_value bs = omega arith in
    ap₂ ◌∷◌ low (ap (le_bytes (length bs)) high ∙ le_bytes-le_value bs h.1)

pub le_value_lt : (bs : Bytes) → AllBytes bs → Fits (length bs) (le_value bs)
le_value_lt [] h = refl
le_value_lt (b ∷ bs) h =
    let high : (b + 256 * le_value bs) / 256 ≡ le_value bs = omega arith in
    subst (Fits (length bs)) (sym high) (le_value_lt bs h.1)

pub AllBytes-take : (n : ℕ) (bs : Bytes) → AllBytes bs → AllBytes (take n bs)
AllBytes-take zero bs h = tt
AllBytes-take (suc n) [] h = tt
AllBytes-take (suc n) (b ∷ bs) h = (h.0, AllBytes-take n bs h.1)

pub AllBytes-drop : (n : ℕ) (bs : Bytes) → AllBytes bs → AllBytes (drop n bs)
AllBytes-drop zero bs h = h
AllBytes-drop (suc n) [] h = tt
AllBytes-drop (suc n) (b ∷ bs) h = AllBytes-drop n bs h.1
