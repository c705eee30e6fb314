-- ===== src/NumMap.antt =====
-- Go's maps from numbers, or from strings that are only compared, as association lists.
use torus.Base.{
  ℕ, ◌≡◌, ◌≢◌, refl, ◌∙◌, List, [], ◌∷◌, Option, none, some, arith, ◌==◌, ==_self, if◌then◌else◌,
}

abbrev pub NumMap {ℓ} : Type ℓ → Type ℓ
NumMap V = List (ℕ × V)

module _ {ℓ} {V : Type ℓ} where
  abbrev pub find : ℕ → NumMap V → Option V
  find k [] = none
  find k ((j, v) ∷ m) = if j == k then some v else find k m

  abbrev pub put : ℕ → V → NumMap V → NumMap V
  put k v [] = (k, v) ∷ []
  put k v ((j, w) ∷ m) = if j == k then (j, v) ∷ m else (j, w) ∷ put k v m

  abbrev pub remove : ℕ → NumMap V → NumMap V
  remove k [] = []
  remove k ((j, w) ∷ m) = let rest = remove k m in if j == k then rest else (j, w) ∷ rest

  -- `m[k]`, with the zero value for a missing key
  abbrev pub find_or : V → ℕ → NumMap V → V
  find_or v k m = elim (find k m) [ none ↦ v | some w ↦ w ]

module _ {ℓ} {V : Type ℓ} where
  pub find-put :
      (k j : ℕ) (v : V) (m : NumMap V) → find j (put k v m) ≡ (if k == j then some v else find j m)
  find-put k j v [] = refl
  find-put k j v ((i, w) ∷ m) = ground (arith, find-put k j v m)

  pub find-put_self : (k : ℕ) (v : V) (m : NumMap V) → find k (put k v m) ≡ some v
  find-put_self k v m = find-put k k v m ∙ rw (==_self k)

  pub find-put_ne : (k j : ℕ) (v : V) (m : NumMap V) → k ≢ j → find j (put k v m) ≡ find j m
  find-put_ne k j v m ne = ground (arith, find-put k j v m)
