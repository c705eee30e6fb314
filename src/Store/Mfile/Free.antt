-- ===== src/Store/Mfile/Free.antt =====
-- The search for a free slot goes once round the map file from behind the last one found.
use torus.Base.{
  ℕ, zero, suc, ◌+◌, ◌-◌, ◌%◌, ◌≤◌, ◌<◌, ◌≡◌, sym, ap, ◌∙◌, true, false, none, some, arith, inl,
  inr, ltb, leb, if◌then◌else◌, bytes_eq, Bool-cases, bytes_eq→eq, bytes_eq_refl,
}
use native.Mathlib.Nat.{add-mod-mod, mod-eq_of_lt}
use torus.Store.Mmap.{num_blocks}
use torus.Store.Mfile.{MFileBlock, blank_ref_bytes, slot, find_empty, find_empty_from}

-- Slot `i` of the map file is free.
abbrev pub IsFree : MFileBlock → ℕ → Type 0
IsFree s i = slot s.ref_file i ≡ blank_ref_bytes

-- Going round from any start, every slot comes up within one round.
pub round_index : ℕ → ℕ → ℕ → ℕ
round_index n start t = let q = (start + 1) % n in if leb q t then t - q else t + n - q

around : (j u n start : ℕ) → j + (start + 1) % n ≡ u → (j + start + 1) % n ≡ u % n
around j u n start e =
    let shift : j + start + 1 ≡ j + (start + 1) = omega arith in
    rw shift (sym (add-mod-mod j (start + 1) n) ∙ ap (λ x. x % n) e)

round_index_lem :
    (n start t : ℕ)
    → t < n
    → (round_index n start t < n) × ((round_index n start t + start + 1) % n ≡ t)
unfolding round_index
round_index_lem n start t h =
    let q_lt : (start + 1) % n < n = omega arith in
    elim (Bool-cases (leb ((start + 1) % n) t)) [
      | inl below ↦
          let le : (start + 1) % n ≤ t = ground arith in
          rw below
            (omega arith, around (t - (start + 1) % n) t n start (omega arith) ∙ mod-eq_of_lt h)
      | inr above ↦
          let gt : t < (start + 1) % n = ground arith in
          rw above (
            omega arith,
            around (t + n - (start + 1) % n) (t + n) n start (omega arith)
                ∙ grind (arith, mod-eq_of_lt h),
          )
    ]

find_empty_from_sound :
    (s : MFileBlock) (k i : ℕ) {at : ℕ}
    → 0 < num_blocks s.data_file
    → find_empty_from s k i ≡ some at
    → (at < num_blocks s.data_file) × IsFree s at
unfolding find_empty_from
find_empty_from_sound s zero i p h = cc
find_empty_from_sound s (suc k) i {at} p h =
    let here : ℕ = (i + s.last_free + 1) % num_blocks s.data_file in
    elim (Bool-cases (bytes_eq (slot s.ref_file here) blank_ref_bytes)) [
      | inl free ↦
          let e : here ≡ at = ground arith in
          rw (← e) (omega arith, bytes_eq→eq (slot s.ref_file here) blank_ref_bytes free)
      | inr taken ↦ find_empty_from_sound s k (i + 1) p (rw taken at h)
    ]

find_empty_from-none :
    (s : MFileBlock) (k i j : ℕ)
    → find_empty_from s k i ≡ none
    → i ≤ j
    → j < i + k
    → bytes_eq (slot s.ref_file ((j + s.last_free + 1) % num_blocks s.data_file)) blank_ref_bytes
      ≡ false
unfolding find_empty_from
find_empty_from-none s zero i j h lo hi = absurd (omega arith)
find_empty_from-none s (suc k) i j h lo hi =
    let here : ℕ = (i + s.last_free + 1) % num_blocks s.data_file in
    elim (Bool-cases (bytes_eq (slot s.ref_file here) blank_ref_bytes)) [
      | inl free ↦ let found : some here ≡ none = rw free at h in cc
      | inr taken ↦ elim (Bool-cases (ltb i j)) [
        | inl later ↦
            find_empty_from-none s k (i + 1) j (rw taken at h) (ground arith) (omega arith)
        | inr now ↦ let e : i ≡ j = ground arith in rw (← e) taken
      ]
    ]

rounds_pos : (s : MFileBlock) (k i : ℕ) {at : ℕ} → find_empty_from s k i ≡ some at → 0 < k
unfolding find_empty_from
rounds_pos s zero i h = cc
rounds_pos s (suc k) i h = omega arith

-- What the search for a free slot finds is a free slot of the store.
pub find_empty_sound :
    (s : MFileBlock) {at : ℕ} → find_empty s ≡ some at → (at < num_blocks s.data_file) × IsFree s at
unfolding find_empty
find_empty_sound s h =
    find_empty_from_sound s (num_blocks s.data_file) 0 (rounds_pos s (num_blocks s.data_file) 0 h) h

-- When the search for a free slot finds nothing, no slot of the store is free, wherever the search
-- began.
pub find_empty_complete :
    (s : MFileBlock) (t : ℕ) → find_empty s ≡ none → t < num_blocks s.data_file → ¬ IsFree s t
unfolding find_empty
find_empty_complete s t h l free =
    let j = round_index_lem (num_blocks s.data_file) s.last_free t l in
    let taken =
      find_empty_from-none s (num_blocks s.data_file) 0
        (round_index (num_blocks s.data_file) s.last_free t) h (omega arith) (omega (arith, j.0)) in
    let taken' : bytes_eq (slot s.ref_file t) blank_ref_bytes ≡ false = rw j.1 at taken in
    let same : bytes_eq (slot s.ref_file t) blank_ref_bytes ≡ true =
      rw free (bytes_eq_refl blank_ref_bytes) in
    cc
