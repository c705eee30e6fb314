-- ===== src/Blockset/Indexing.antt =====
-- Reads of a list after the writes that the layers make: one entry, a cut or extension, a range.
use torus.Base.{
  ℕ, zero, suc, ◌+◌, ◌-◌, ◌≤◌, ◌<◌, ◌≡◌, ◌≢◌, refl, ap, ◌∙◌, true, some, List, [], ◌∷◌, ◌++◌, arith,
  inl, inr, length, get_elem?, take, replicate, length-set, length-append, length-take,
  length-replicate, get_elem?-set_self, get_elem?-set_ne, get_elem?-append_left,
  get_elem?-append_last, ltb, leb, ◌==◌, if◌then◌else◌, Bool-cases, ==_iff,
}
use torus.Blockset.Base.{put_at, resize}

module _ {ℓ} {A : Type ℓ} where
  pub length-put_at :
      (xs : List A) (i : ℕ) (v : A)
      → i ≤ length xs
      → length (put_at xs i v) ≡ (if i == length xs then length xs + 1 else length xs)
  length-put_at xs i v h = elim (Bool-cases (i == length xs)) [
    | inl e ↦ rw e (length-append xs (v ∷ []))
    | inr e ↦ rw e (length-set xs i v)
  ]

  get_elem?-append_out :
      (xs : List A) (v : A) (j : ℕ) → length xs < j → get_elem? (xs ++ (v ∷ [])) j ≡ get_elem? xs j
  get_elem?-append_out [] v zero h = absurd (omega arith)
  get_elem?-append_out [] v (suc j) h = refl
  get_elem?-append_out (x ∷ xs) v zero h = absurd (omega arith)
  get_elem?-append_out (x ∷ xs) v (suc j) h = get_elem?-append_out xs v j (omega arith)

  pub get_elem?-put_at_self :
      (xs : List A) (i : ℕ) (v : A) → i ≤ length xs → get_elem? (put_at xs i v) i ≡ some v
  get_elem?-put_at_self xs i v h = elim (Bool-cases (i == length xs)) [
    | inl e ↦
        let at : i ≡ length xs = (==_iff i (length xs)).0 e in
        rw e (ap (get_elem? (xs ++ (v ∷ []))) at ∙ get_elem?-append_last xs v)
    | inr e ↦ rw e (get_elem?-set_self xs i v (ground arith))
  ]

  pub get_elem?-put_at_ne :
      (xs : List A) (i j : ℕ) (v : A)
      → i ≤ length xs
      → i ≢ j
      → get_elem? (put_at xs i v) j ≡ get_elem? xs j
  get_elem?-put_at_ne xs i j v h ne = elim (Bool-cases (i == length xs)) [
    | inl e ↦ rw e (elim (Bool-cases (ltb j (length xs))) [
      | inl below ↦ get_elem?-append_left xs (v ∷ []) j (ground arith)
      | inr above ↦ get_elem?-append_out xs v j (ground arith)
    ])
    | inr e ↦ rw e (get_elem?-set_ne xs i j v ne)
  ]

  get_elem?-replicate : (n j : ℕ) (v : A) → j < n → get_elem? (replicate n v) j ≡ some v
  get_elem?-replicate zero j v h = absurd (omega arith)
  get_elem?-replicate (suc n) zero v h = refl
  get_elem?-replicate (suc n) (suc j) v h = get_elem?-replicate n j v (omega arith)

  get_elem?-append_pad :
      (xs : List A) (n j : ℕ) (v : A)
      → length xs ≤ j
      → j < length xs + n
      → get_elem? (xs ++ replicate n v) j ≡ some v
  get_elem?-append_pad [] n j v h k = get_elem?-replicate n j v (omega arith)
  get_elem?-append_pad (x ∷ xs) n zero v h k = absurd (omega arith)
  get_elem?-append_pad (x ∷ xs) n (suc j) v h k =
      get_elem?-append_pad xs n j v (omega arith) (omega arith)

  get_elem?-take : (n : ℕ) (xs : List A) (j : ℕ) → j < n → get_elem? (take n xs) j ≡ get_elem? xs j
  get_elem?-take zero xs j h = absurd (omega arith)
  get_elem?-take (suc n) [] j h = refl
  get_elem?-take (suc n) (x ∷ xs) zero h = refl
  get_elem?-take (suc n) (x ∷ xs) (suc j) h = get_elem?-take n xs j (omega arith)

  pub length-resize : (n : ℕ) (v : A) (xs : List A) → length (resize n v xs) ≡ n
  length-resize n v xs = elim (Bool-cases (leb n (length xs))) [
    | inl cut ↦ rw cut (ground (arith, length-take n xs))
    | inr longer ↦ rw longer (
        ground (
          arith,
          length-append xs (replicate (n - length xs) v),
          length-replicate {A = A} (n - length xs) v,
        ))
  ]

  -- Below the new length an entry is the old one, or the filling.
  pub get_elem?-resize :
      (n : ℕ) (v : A) (xs : List A) (j : ℕ)
      → j < n
      → get_elem? (resize n v xs) j ≡ (if ltb j (length xs) then get_elem? xs j else some v)
  get_elem?-resize n v xs j h = elim (Bool-cases (leb n (length xs))) [
    | inl cut ↦
        let below : ltb j (length xs) ≡ true = ground arith in
        rw (cut, below) (get_elem?-take n xs j h)
    | inr longer ↦ elim (Bool-cases (ltb j (length xs))) [
      | inl old ↦
          rw (longer, old) (get_elem?-append_left xs (replicate (n - length xs) v) j (ground arith))
      | inr new ↦
          rw (longer, new)
            (get_elem?-append_pad xs (n - length xs) j v (ground arith) (ground arith))
    ]
  ]
