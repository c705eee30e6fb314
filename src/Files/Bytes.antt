-- ===== src/Files/Bytes.antt =====
-- Bytes of lists after the list operations of a file, and where a byte stands in its block.
use torus.Base.{
  ℕ, zero, suc, ◌+◌, ◌-◌, ◌*◌, ◌/◌, ◌%◌, ◌≤◌, ◌<◌, ◌≡◌, ◌≢◌, refl, sym, ap, ◌∙◌, [], ◌∷◌, ◌++◌,
  arith, inl, inr, ◌⊎◌, length, take, drop, slice, splice, get_or, replicate, Bytes, Outcome, ok,
  err, panic,
}
use native.Mathlib.Nat.{mod-add-div', mul-add-div_right, div-eq_of_lt}

pub get_or-append_left :
    (xs ys : Bytes) (i : ℕ) → i < length xs → get_or (xs ++ ys) i 0 ≡ get_or xs i 0
get_or-append_left [] ys i h = absurd (omega arith)
get_or-append_left (x ∷ xs) ys zero h = refl
get_or-append_left (x ∷ xs) ys (suc i) h = get_or-append_left xs ys i (omega arith)

pub get_or-append_right :
    (xs ys : Bytes) (i : ℕ) → length xs ≤ i → get_or (xs ++ ys) i 0 ≡ get_or ys (i - length xs) 0
get_or-append_right [] ys i h = ap (λ k. get_or ys k 0) (omega arith)
get_or-append_right (x ∷ xs) ys zero h = absurd (omega arith)
get_or-append_right (x ∷ xs) ys (suc i) h =
    get_or-append_right xs ys i (omega arith) ∙ ap (λ k. get_or ys k 0) (omega arith)

pub get_or-take : (n : ℕ) (xs : Bytes) (i : ℕ) → i < n → get_or (take n xs) i 0 ≡ get_or xs i 0
get_or-take zero xs i h = absurd (omega arith)
get_or-take (suc n) [] i h = refl
get_or-take (suc n) (x ∷ xs) zero h = refl
get_or-take (suc n) (x ∷ xs) (suc i) h = get_or-take n xs i (omega arith)

pub get_or-drop : (n : ℕ) (xs : Bytes) (i : ℕ) → get_or (drop n xs) i 0 ≡ get_or xs (n + i) 0
get_or-drop zero xs i = ap (λ k. get_or xs k 0) (omega arith)
get_or-drop (suc n) [] i = refl
get_or-drop (suc n) (x ∷ xs) i =
    let step : suc n + i ≡ suc (n + i) = omega arith in rw step (get_or-drop n xs i)

pub get_or-slice :
    (off len : ℕ) (xs : Bytes) (i : ℕ)
    → i < len
    → get_or (slice off len xs) i 0 ≡ get_or xs (off + i) 0
get_or-slice off len xs i h = get_or-take len (drop off xs) i h ∙ get_or-drop off xs i

-- Byte `k` of a block that could be read
abbrev pub byte_of : Outcome Bytes → ℕ → ℕ
byte_of (ok d) k = get_or d k 0
byte_of (err e) k = 0
byte_of panic k = 0

pub div_in_block :
    (b off j : ℕ)
    → 0 < b
    → off % b + j < b
    → ((off + j) / b ≡ off / b) × ((off + j) % b ≡ off % b + j)
div_in_block b off j pos h =
    let split : off + j ≡ off / b * b + (off % b + j) = omega (arith, mod-add-div' off b) in
    let small : (off % b + j) / b ≡ 0 = div-eq_of_lt h in
    let quotient : (off + j) / b ≡ off / b =
      ap (λ x. x / b) split
      ∙ mul-add-div_right pos (off / b) (off % b + j)
      ∙ omega (arith, small) in
    let whole : (off + j) % b + off / b * b ≡ off + j =
      ap (λ q. (off + j) % b + q * b) (sym quotient) ∙ mod-add-div' (off + j) b in
    (quotient, omega (arith, split, whole))

pub get_or-splice_in :
    (off : ℕ) (ys xs : Bytes) (j : ℕ)
    → off + length ys ≤ length xs
    → j < length ys
    → get_or (splice off ys xs) (off + j) 0 ≡ get_or ys j 0
get_or-splice_in zero [] xs j h l = absurd (omega arith)
get_or-splice_in zero (y ∷ ys) [] j h l = absurd (omega arith)
get_or-splice_in zero (y ∷ ys) (x ∷ xs) zero h l = refl
get_or-splice_in zero (y ∷ ys) (x ∷ xs) (suc j) h l =
    let step : 0 + suc j ≡ suc (0 + j) = omega arith in
    rw step (get_or-splice_in zero ys xs j (omega arith) (omega arith))
get_or-splice_in (suc off) ys [] j h l = absurd (omega arith)
get_or-splice_in (suc off) ys (x ∷ xs) j h l =
    let step : suc off + j ≡ suc (off + j) = omega arith in
    rw step (get_or-splice_in off ys xs j (omega arith) l)

pub get_or-splice_out :
    (off : ℕ) (ys xs : Bytes) (k : ℕ)
    → (k < off) ⊎ (off + length ys ≤ k)
    → get_or (splice off ys xs) k 0 ≡ get_or xs k 0
get_or-splice_out zero [] xs k h = refl
get_or-splice_out zero (y ∷ ys) [] k h = refl
get_or-splice_out zero (y ∷ ys) (x ∷ xs) zero (inl h) = absurd (omega arith)
get_or-splice_out zero (y ∷ ys) (x ∷ xs) zero (inr h) = absurd (omega arith)
get_or-splice_out zero (y ∷ ys) (x ∷ xs) (suc k) (inl h) = absurd (omega arith)
get_or-splice_out zero (y ∷ ys) (x ∷ xs) (suc k) (inr h) =
    get_or-splice_out zero ys xs k (inr (omega arith))
get_or-splice_out (suc off) ys [] k h = refl
get_or-splice_out (suc off) ys (x ∷ xs) zero h = refl
get_or-splice_out (suc off) ys (x ∷ xs) (suc k) (inl h) =
    get_or-splice_out off ys xs k (inl (omega arith))
get_or-splice_out (suc off) ys (x ∷ xs) (suc k) (inr h) =
    get_or-splice_out off ys xs k (inr (omega arith))

pub get_or-zeros : (n k : ℕ) → get_or {A = ℕ} (replicate n 0) k 0 ≡ 0
get_or-zeros zero k = refl
get_or-zeros (suc n) zero = refl
get_or-zeros (suc n) (suc k) = get_or-zeros n k

pub unread_byte : (a : Outcome Bytes) (k : ℕ) → ((e : Bytes) → a ≢ ok e) → byte_of a k ≡ 0
unread_byte (ok d) k h = absurd (h d refl)
unread_byte (err e) k h = refl
unread_byte panic k h = refl
