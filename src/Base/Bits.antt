-- ===== src/Base/Bits.antt =====
-- Bit operations: a table check for bytes, and `or` with a shifted word at every width.
use Prim.Native.Nat.{
  ℕ, zero, suc, ◌+◌, ◌*◌, ◌/◌, ◌%◌, ◌^◌, ◌≤◌, ◌<◌, max, bit_or, digits, bit_or-bitwise,
}
use mathlib.Core.Path.{◌≡◌, refl, sym, ap, ◌∙◌}
use mathlib.Core.Bool.{Bool, true, ◌&&◌}
use native.Mathlib.Omega.{arith}
use native.Mathlib.Nat.{div-div-eq-div-mul, pow-suc}

-- Over a small range, every value is checked by evaluation.
abbrev pub all_below : ℕ → (ℕ → Bool) → Bool
all_below zero p = true
all_below (suc n) p = p n && all_below n p

pub all_below_sound : (n : ℕ) (p : ℕ → Bool) (x : ℕ) → all_below n p ≡ true → x < n → p x ≡ true
all_below_sound zero p x h lt = absurd (omega arith)
all_below_sound (suc n) p x h lt = ground (arith, all_below_sound n p x)

-- The digits of an `or` do not depend on the fuel, once it covers the first number.
or_digits-fuel :
    (n m a b : ℕ) → a ≤ n → a ≤ m → digits (λ y. y) max n a b ≡ digits (λ y. y) max m a b
or_digits-fuel zero zero a b p q = refl
or_digits-fuel zero (suc m) zero b p q = refl
or_digits-fuel zero (suc m) (suc a) b p q = absurd (omega arith)
or_digits-fuel (suc n) zero zero b p q = refl
or_digits-fuel (suc n) zero (suc a) b p q = absurd (omega arith)
or_digits-fuel (suc n) (suc m) zero b p q = refl
or_digits-fuel (suc n) (suc m) (suc a) b p q =
    omega (arith, or_digits-fuel n m (suc a / 2) (b / 2) (omega arith) (omega arith))

bit_or-zero_left : (b : ℕ) → bit_or 0 b ≡ b
bit_or-zero_left b = bit_or-bitwise 0 b

-- One binary digit of an `or`.
pub bit_or-digit : (a b : ℕ) → bit_or a b ≡ bit_or (a / 2) (b / 2) * 2 + max (a % 2) (b % 2)
bit_or-digit zero b = omega (arith, bit_or-zero_left b, bit_or-zero_left (b / 2))
bit_or-digit (suc a) b = omega (
  arith,
  bit_or-bitwise (suc a) b,
  bit_or-bitwise (suc a / 2) (b / 2),
  or_digits-fuel a (suc a / 2) (suc a / 2) (b / 2) (omega arith) (omega arith),
)

-- An `or` with a word shifted by `k` leaves the low `k` bits alone and works on the rest.
abbrev pub double : ℕ → ℕ → ℕ
double zero t = t
double (suc k) t = 2 * double k t

abbrev pub halve : ℕ → ℕ → ℕ
halve zero a = a
halve (suc k) a = halve k (a / 2)

abbrev pub low_part : ℕ → ℕ → ℕ
low_part zero a = 0
low_part (suc k) a = a % 2 + 2 * low_part k (a / 2)

pub bit_or-double :
    (k a t : ℕ) → bit_or a (double k t) ≡ double k (bit_or (halve k a) t) + low_part k a
bit_or-double zero a t = omega arith
bit_or-double (suc k) a t =
    let half : 2 * double k t / 2 ≡ double k t = omega arith in
    let rest = bit_or-double k (a / 2) t in
    let step = bit_or-digit a (2 * double k t) in
    let step' : bit_or a (2 * double k t)
        ≡ bit_or (a / 2) (double k t) * 2 + max (a % 2) (2 * double k t % 2) =
      rw half at step in
    omega (arith, step', rest)

pub double-pow : (k t : ℕ) → double k t ≡ t * 2 ^ k
double-pow zero t = omega arith
double-pow (suc k) t = grind (arith, pow-suc 2 k, double-pow k t)

pub halve-pow : (k a : ℕ) → halve k a ≡ a / 2 ^ k
halve-pow zero a = omega arith
halve-pow (suc k) a =
    let two : 2 * 2 ^ k ≡ 2 ^ suc k = grind (arith, pow-suc 2 k) in
    halve-pow k (a / 2) ∙ div-div-eq-div-mul a 2 (2 ^ k) ∙ ap (λ d. a / d) two

pub low_part-halve : (k a : ℕ) → low_part k a + double k (halve k a) ≡ a
low_part-halve zero a = omega arith
low_part-halve (suc k) a = omega (arith, low_part-halve k (a / 2))

pub bit_or-zero : (b : ℕ) → bit_or 0 b ≡ b
bit_or-zero b = bit_or-zero_left b

-- The two fields that an `or` with a word shifted by `k` leaves: the low one and the high one.
pub bit_or-shifted :
    (k a t : ℕ) → bit_or a (t * 2 ^ k) ≡ bit_or (a / 2 ^ k) t * 2 ^ k + low_part k a
bit_or-shifted k a t =
    ap (bit_or a) (sym (double-pow k t))
    ∙ bit_or-double k a t
    ∙ ap (λ h. double k (bit_or h t) + low_part k a) (halve-pow k a)
    ∙ ap (λ s. s + low_part k a) (double-pow k (bit_or (a / 2 ^ k) t))

pub low_part_lem : (k a : ℕ) → low_part k a + a / 2 ^ k * 2 ^ k ≡ a
low_part_lem k a =
    let e : double k (halve k a) ≡ a / 2 ^ k * 2 ^ k =
      double-pow k (halve k a) ∙ ap (λ h. h * 2 ^ k) (halve-pow k a) in
    omega (arith, low_part-halve k a, e)

pub bit_or_lt : (k a b : ℕ) → a < 2 ^ k → b < 2 ^ k → bit_or a b < 2 ^ k
bit_or_lt zero a b h l =
    let e : a ≡ 0 = omega arith in let e' : b ≡ 0 = omega arith in rw (e, e') (omega arith)
bit_or_lt (suc k) a b h l =
    let two : 2 * 2 ^ k ≡ 2 ^ suc k = grind (arith, pow-suc 2 k) in
    omega (
      arith,
      bit_or-digit a b,
      two,
      bit_or_lt k (a / 2) (b / 2) (omega (arith, two)) (omega (arith, two)),
    )
