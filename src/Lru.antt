-- ===== src/Lru.antt =====
-- The read cache of the distributor, least recently used first out: distributor/lru.go. A key is
-- only compared, so a number stands for it; `same` is `reflect.DeepEqual` on the values. An element
-- of the list is told apart from others by a number of its own, as a pointer to it is.
pub mod Reads
mod Checks
use torus.Base.{
  ℕ, ◌+◌, Bool, true, false, Option, none, some, List, [], ◌∷◌, length, ◌==◌, if◌then◌else◌,
  Outcome, ok, panic, ◌>>=◌,
}

-- A list element with its `kv`
pub record Element (V : Type 0) : Type 0 where
  pub id : ℕ
  pub key : ℕ
  pub value : V

-- `pushed` counts the elements made so far.
pub record Cache (V : Type 0) : Type 0 where
  pub cache : List (ℕ × Element V)
  pub priority : List (Element V)
  pub max_size : ℕ
  pub pushed : ℕ

module _ {V : Type 0} where
  unfoldable pub new_cache : ℕ → Cache V
  new_cache size = record { cache = []; priority = []; max_size = size; pushed = 0 }

  -- The Go map from keys to elements
  abbrev pub lookup : ℕ → List (ℕ × Element V) → Option (Element V)
  lookup k [] = none
  lookup k ((j, e) ∷ m) = if j == k then some e else lookup k m

  abbrev pub insert : ℕ → Element V → List (ℕ × Element V) → List (ℕ × Element V)
  insert k e [] = (k, e) ∷ []
  insert k e ((j, f) ∷ m) = let rest = insert k e m in if j == k then (k, e) ∷ m else (j, f) ∷ rest

  abbrev pub delete : ℕ → List (ℕ × Element V) → List (ℕ × Element V)
  delete k [] = []
  delete k ((j, f) ∷ m) = let rest = delete k m in if j == k then rest else (j, f) ∷ rest

  -- `list.Remove`: an element that is not in the list leaves it as it is.
  unfoldable pub remove : ℕ → List (Element V) → List (Element V)
  remove i [] = []
  remove i (e ∷ es) = let rest = remove i es in if e.id == i then es else e ∷ rest

  unfoldable pub is_in : ℕ → List (Element V) → Bool
  is_in i [] = false
  is_in i (e ∷ es) = if e.id == i then true else is_in i es

  -- `list.MoveToFront`
  unfoldable pub move_to_front : Element V → List (Element V) → List (Element V)
  unfolding remove is_in
  move_to_front e es = if is_in e.id es then e ∷ remove e.id es else es

  -- `cache.get` on what the map has
  unfoldable pub get_found : Cache V → Option (Element V) → Option V × Cache V
  unfolding move_to_front
  get_found c none = (none, c)
  get_found c (some e) = (some e.value, record c { priority = move_to_front e c.priority })

  unfoldable pub get : Cache V → ℕ → Option V × Cache V
  unfolding get_found
  get c k = get_found c (lookup k c.cache)

  -- `list.Back`
  unfoldable pub back : List (Element V) → Option (Element V)
  back [] = none
  back (e ∷ []) = some e
  back (e ∷ (f ∷ es)) = back (f ∷ es)

  -- `removeOldest`: removing the back of an empty list panics.
  unfoldable pub remove_oldest : Cache V → Outcome (Cache V)
  unfolding back remove
  remove_oldest c = elim (back c.priority) [
    | none ↦ panic
    | some e ↦ ok (record c { priority = remove e.id c.priority; cache = delete e.key c.cache })
  ]

  unfoldable pub make_room : Cache V → Outcome (Cache V)
  unfolding remove_oldest
  make_room c = if length c.cache == c.max_size then remove_oldest c else ok c

  unfoldable pub push : Cache V → ℕ → V → Cache V
  push c k v =
      let e : Element V = record { id = c.pushed; key = k; value = v } in
      record c { cache = insert k e c.cache; priority = e ∷ c.priority; pushed = c.pushed + 1 }

  -- The end of `Put`
  unfoldable pub put_new : Cache V → ℕ → V → Outcome (Cache V)
  unfolding make_room push
  put_new c k v = do c' ← make_room c; ok (push c' k v)

module _ {V : Type 0} (same : V → V → Bool) where
  unfoldable pub find : List (Element V) → V → Option (Element V)
  find [] v = none
  find (e ∷ es) v = if same e.value v then some e else find es v

  -- `Put` on what `get` gave; a value that is in the map and not in the list ends the process.
  unfoldable pub put_found : Option V × Cache V → ℕ → V → Outcome (Cache V)
  unfolding find put_new
  put_found (none, c) k v = put_new c k v
  put_found (some w, c) k v = if same w v then ok c else elim (find c.priority w) [
    | none ↦ panic
    | some e ↦ put_new (record c { priority = remove e.id c.priority }) k v
  ]

  unfoldable pub put : Cache V → ℕ → V → Outcome (Cache V)
  unfolding put_found
  put c k v = put_found (get c k) k v

  -- `Put` and `Get` on a pointer that may be nil
  unfoldable pub put_on : Option (Cache V) → ℕ → V → Outcome (Option (Cache V))
  put_on none k v = ok none
  put_on (some c) k v = do c' ← put c k v; ok (some c')

unfoldable pub get_on : {V : Type 0} → Option (Cache V) → ℕ → Option V × Option (Cache V)
get_on none k = (none, none)
get_on (some c) k = let (v, c') = get c k in (v, some c')
