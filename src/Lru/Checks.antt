-- ===== src/Lru/Checks.antt =====
-- Runs of the cache, and instances of its laws.
use torus.Base.{ℕ, ◌≡◌, refl, Bool, none, some, [], ◌∷◌, ◌==◌, ok, panic}
use torus.Lru.{Element, Cache, get, put, put_new, make_room, remove_oldest, push}
use torus.Lru.Reads.{IsPut, put-IsPut, put-new_key}

abbrev same_number : ℕ → ℕ → Bool
same_number a b = a == b

abbrev first : Element ℕ
first = record { id = 0; key = 1; value = 10 }

abbrev second : Element ℕ
second = record { id = 1; key = 2; value = 20 }

-- Two keys in a cache for two.
abbrev full : Cache ℕ
full = record {
  cache = (1, first) ∷ ((2, second) ∷ []);
  priority = second ∷ (first ∷ []);
  max_size = 2;
  pushed = 2;
}

abbrev third : Element ℕ
third = record { id = 2; key = 2; value = 21 }

-- Changing the value under key 2 of the full cache drops key 1.
abbrev changed : Cache ℕ
changed = record { cache = (2, third) ∷ []; priority = third ∷ []; max_size = 2; pushed = 3 }

changed_lem : put same_number full 2 21 ≡ ok changed
unfolding put get put_new make_room remove_oldest push
changed_lem = refl

-- In a cache for one, the same change panics.
alone :
    put same_number
      (record { cache = (1, first) ∷ []; priority = first ∷ []; max_size = 1; pushed = 1 })
      1
      11
    ≡ panic
unfolding put get put_new make_room remove_oldest push
alone = refl

put-IsPut_example : IsPut same_number full 2 21 changed
put-IsPut_example = put-IsPut same_number full changed 2 21 changed_lem

absent_lem : (get full 3).0 ≡ none
unfolding get
absent_lem = refl

put-new_key_example :
    (c' : Cache ℕ) × (put same_number full 3 30 ≡ ok c') × ((get c' 3).0 ≡ some 30)
put-new_key_example = put-new_key same_number full 3 30 second (first ∷ []) absent_lem refl
