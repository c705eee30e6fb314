-- ===== src/Base/Slices.antt =====
-- Windows of a list: what `xs[off : off + len]` reads and `copy(xs[off:], ys)` writes in range.
use Prim.Native.Nat.{ℕ, zero, suc, ◌+◌, ◌≤◌}
use mathlib.Core.Path.{◌≡◌, refl, sym, ap, ◌∙◌}
use mathlib.Core.List.{List, [], ◌∷◌, ◌++◌}
use native.Mathlib.Omega.{arith}
use torus.Base.Lists.{length, take, drop, length-take, length-drop, take-append-drop}

module _ {ℓ} {A : Type ℓ} where
  abbrev pub slice : ℕ → ℕ → List A → List A
  slice off len xs = take len (drop off xs)

  -- Overwrites from `off` on, as far as the list goes.
  abbrev pub splice : ℕ → List A → List A → List A
  splice zero [] xs = xs
  splice zero (y ∷ ys) [] = []
  splice zero (y ∷ ys) (x ∷ xs) = y ∷ splice zero ys xs
  splice (suc off) ys [] = []
  splice (suc off) ys (x ∷ xs) = x ∷ splice off ys xs

module _ {ℓ} {A : Type ℓ} where
  pub length-slice :
      (off len : ℕ) (xs : List A) → off + len ≤ length xs → length (slice off len xs) ≡ len
  length-slice off len xs h = omega (arith, length-take len (drop off xs), length-drop off xs)

  pub length-splice : (off : ℕ) (ys xs : List A) → length (splice off ys xs) ≡ length xs
  length-splice zero [] xs = refl
  length-splice zero (y ∷ ys) [] = refl
  length-splice zero (y ∷ ys) (x ∷ xs) = ap suc (length-splice zero ys xs)
  length-splice (suc off) ys [] = refl
  length-splice (suc off) ys (x ∷ xs) = ap suc (length-splice off ys xs)

  pub slice-splice_self :
      (off : ℕ) (ys xs : List A)
      → off + length ys ≤ length xs
      → slice off (length ys) (splice off ys xs) ≡ ys
  slice-splice_self zero [] xs h = refl
  slice-splice_self zero (y ∷ ys) [] h = absurd (omega arith)
  slice-splice_self zero (y ∷ ys) (x ∷ xs) h =
      ap (λ l. y ∷ l) (slice-splice_self zero ys xs (omega arith))
  slice-splice_self (suc off) ys [] h = absurd (omega arith)
  slice-splice_self (suc off) ys (x ∷ xs) h = slice-splice_self off ys xs (omega arith)

  -- A window that ends before the write, or begins behind it, is unchanged.
  pub slice-splice_below :
      (off at len : ℕ) (ys xs : List A)
      → at + len ≤ off
      → slice at len (splice off ys xs) ≡ slice at len xs
  slice-splice_below zero zero zero ys xs h = refl
  slice-splice_below zero zero (suc len) ys xs h = absurd (omega arith)
  slice-splice_below zero (suc at) len ys xs h = absurd (omega arith)
  slice-splice_below (suc off) at len ys [] h = refl
  slice-splice_below (suc off) zero zero ys (x ∷ xs) h = refl
  slice-splice_below (suc off) zero (suc len) ys (x ∷ xs) h =
      ap (λ l. x ∷ l) (slice-splice_below off zero len ys xs (omega arith))
  slice-splice_below (suc off) (suc at) len ys (x ∷ xs) h =
      slice-splice_below off at len ys xs (omega arith)

  pub slice-splice_above :
      (off at len : ℕ) (ys xs : List A)
      → off + length ys ≤ at
      → slice at len (splice off ys xs) ≡ slice at len xs
  slice-splice_above zero at len [] xs h = refl
  slice-splice_above zero zero len (y ∷ ys) xs h = absurd (omega arith)
  slice-splice_above zero (suc at) len (y ∷ ys) [] h = refl
  slice-splice_above zero (suc at) len (y ∷ ys) (x ∷ xs) h =
      slice-splice_above zero at len ys xs (omega arith)
  slice-splice_above (suc off) at len ys [] h = refl
  slice-splice_above (suc off) zero len ys (x ∷ xs) h = absurd (omega arith)
  slice-splice_above (suc off) (suc at) len ys (x ∷ xs) h =
      slice-splice_above off at len ys xs (omega arith)

  pub take-append_left : (xs ys : List A) → take (length xs) (xs ++ ys) ≡ xs
  take-append_left [] ys = refl
  take-append_left (x ∷ xs) ys = ap (λ l. x ∷ l) (take-append_left xs ys)

  pub drop-append_left : (xs ys : List A) → drop (length xs) (xs ++ ys) ≡ ys
  drop-append_left [] ys = refl
  drop-append_left (x ∷ xs) ys = drop-append_left xs ys

  -- The library's `take_all`: a prefix as long as the list is the list.
  pub take_all : (n : ℕ) (xs : List A) → length xs ≤ n → take n xs ≡ xs
  take_all zero [] h = refl
  take_all (suc n) [] h = refl
  take_all zero (x ∷ xs) h = absurd (omega arith)
  take_all (suc n) (x ∷ xs) h = ap (λ l. x ∷ l) (take_all n xs (omega arith))

module _ {ℓ} {A : Type ℓ} where
  pub drop-nil : (n : ℕ) → drop {A = A} n [] ≡ []
  drop-nil zero = refl
  drop-nil (suc n) = refl

  pub drop-drop : (a b : ℕ) (xs : List A) → drop b (drop a xs) ≡ drop (a + b) xs
  drop-drop zero b xs = ap (λ k. drop k xs) (let e : b ≡ 0 + b = omega arith in e)
  drop-drop (suc a) b [] = drop-nil b ∙ sym (drop-nil (suc a + b))
  drop-drop (suc a) b (x ∷ xs) =
      drop-drop a b xs
      ∙ ap (λ k. drop k (x ∷ xs)) (let e : suc (a + b) ≡ suc a + b = omega arith in e)

  -- Three windows in a row make up the list that ends with the last.
  pub three_windows :
      (k : ℕ) (xs : List A)
      → length xs ≡ k + k + k
      → slice 0 k xs ++ (slice k k xs ++ slice (k + k) k xs) ≡ xs
  three_windows k xs h =
      let last : slice (k + k) k xs ≡ drop (k + k) xs =
        take_all k (drop (k + k) xs) (omega (arith, length-drop (k + k) xs)) in
      rw (last, ← drop-drop k k xs) (rw (take-append-drop k (drop k xs)) (take-append-drop k xs))

module _ {ℓ} {A : Type ℓ} where
  -- A write at the front, and one behind a first part, as concatenations.
  pub splice_front :
      (ys xs : List A) → length ys ≤ length xs → splice 0 ys xs ≡ ys ++ drop (length ys) xs
  splice_front [] xs h = refl
  splice_front (y ∷ ys) [] h = absurd (omega arith)
  splice_front (y ∷ ys) (x ∷ xs) h = ap (λ l. y ∷ l) (splice_front ys xs (omega arith))

  pub splice_behind : (ws ys bs : List A) → splice (length ws) ys (ws ++ bs) ≡ ws ++ splice 0 ys bs
  splice_behind [] ys bs = refl
  splice_behind (w ∷ ws) ys bs = ap (λ l. w ∷ l) (splice_behind ws ys bs)

  pub drop_all : (n : ℕ) (xs : List A) → length xs ≤ n → drop n xs ≡ []
  drop_all zero [] h = refl
  drop_all (suc n) [] h = refl
  drop_all zero (x ∷ xs) h = absurd (omega arith)
  drop_all (suc n) (x ∷ xs) h = drop_all n xs (omega arith)
