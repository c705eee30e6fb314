-- ===== src/Lru/Reads.antt =====
-- What Get finds after a Put.
use torus.Base.{
  ℕ, ◌≡◌, ◌≢◌, refl, sym, ap, ◌∙◌, Bool, true, false, Option, none, some, List, [], ◌∷◌, arith, inl,
  inr, ◌⊎◌, length, ◌==◌, if◌then◌else◌, Bool-cases, ==_iff, ==_self, Outcome, ok, err, panic,
  ◌>>=◌,
}
use torus.Lru.{
  Element, Cache, lookup, insert, delete, get, get_found, back, remove, remove_oldest, make_room,
  push, put_new, find, put_found, put, move_to_front,
}

module _ {V : Type 0} where
  lookup-insert_self :
      (k : ℕ) (e : Element V) (m : List (ℕ × Element V)) → lookup k (insert k e m) ≡ some e
  lookup-insert_self k e [] = rw (==_self k) refl
  lookup-insert_self k e ((j, f) ∷ m) = elim (Bool-cases (j == k)) [
    | inl at ↦ rw at (rw (==_self k) refl)
    | inr other ↦ rw (other, other) (lookup-insert_self k e m)
  ]

  lookup-insert_ne :
      (k j : ℕ) (e : Element V) (m : List (ℕ × Element V))
      → k ≢ j
      → lookup j (insert k e m) ≡ lookup j m
  lookup-insert_ne k j e [] h = ground arith
  lookup-insert_ne k j e ((i, f) ∷ m) h = ground (arith, lookup-insert_ne k j e m h)

  lookup-delete_self : (k : ℕ) (m : List (ℕ × Element V)) → lookup k (delete k m) ≡ none
  lookup-delete_self k [] = refl
  lookup-delete_self k ((i, f) ∷ m) = elim (Bool-cases (i == k)) [
    | inl at ↦ rw at (lookup-delete_self k m)
    | inr other ↦ rw (other, other) (lookup-delete_self k m)
  ]

  lookup-delete_ne :
      (k j : ℕ) (m : List (ℕ × Element V)) → k ≢ j → lookup j (delete k m) ≡ lookup j m
  lookup-delete_ne k j [] h = refl
  lookup-delete_ne k j ((i, f) ∷ m) h = elim (Bool-cases (i == k)) [
    | inl at ↦
        let far : (i == j) ≡ false = ground (arith, at) in rw (at, far) (lookup-delete_ne k j m h)
    | inr other ↦ rw other (ap (λ r. if i == j then some f else r) (lookup-delete_ne k j m h))
  ]

  -- What is found under `j` is what was found, or nothing.
  abbrev KeepsOrForgets : ℕ → List (ℕ × Element V) → List (ℕ × Element V) → Type 0
  KeepsOrForgets j m m' = (lookup j m' ≡ lookup j m) ⊎ (lookup j m' ≡ none)

  delete-KeepsOrForgets : (k j : ℕ) (m : List (ℕ × Element V)) → KeepsOrForgets j m (delete k m)
  delete-KeepsOrForgets k j m = elim (Bool-cases (k == j)) [
    | inl at ↦
        let e : k ≡ j = (==_iff k j).0 at in
        inr (ap (λ i. lookup i (delete k m)) (sym e) ∙ lookup-delete_self k m)
    | inr other ↦ inl (lookup-delete_ne k j m (λ e. ground arith))
  ]

  make_room-KeepsOrForgets :
      (c : Cache V) (j : ℕ) {c' : Cache V} → make_room c ≡ ok c' → KeepsOrForgets j c.cache c'.cache
  unfolding make_room remove_oldest
  make_room-KeepsOrForgets c j {c'} h = elim (Bool-cases (length c.cache == c.max_size)) [
    | inl full ↦ go (back c.priority) (rw full at h)
    | inr room ↦
        let same : ok c ≡ ok c' = rw room at h in
        let e : c ≡ c' = cc in inl (ap (λ (x : Cache V). lookup j x.cache) (sym e))
  ]
    where
      go :
          (o : Option (Element V))
          → (elim o [
            | none ↦ panic
            | some e ↦
                ok (record c { priority = remove e.id c.priority; cache = delete e.key c.cache })
          ])
            ≡ ok c'
          → KeepsOrForgets j c.cache c'.cache
      go none b = cc
      go (some e) b =
          let to : record c { priority = remove e.id c.priority; cache = delete e.key c.cache }
              ≡ c' =
            cc in
          elim (delete-KeepsOrForgets e.key j c.cache) [
            | inl kept ↦ inl (ap (λ (x : Cache V). lookup j x.cache) (sym to) ∙ kept)
            | inr gone ↦ inr (ap (λ (x : Cache V). lookup j x.cache) (sym to) ∙ gone)
          ]

  get_value :
      (c : Cache V) (k : ℕ)
      → (get c k).0 ≡ (elim (lookup k c.cache) [ none ↦ none | some e ↦ some e.value ])
  unfolding get get_found
  get_value c k = go (lookup k c.cache)
    where
      go :
          (o : Option (Element V))
          → (get_found c o).0 ≡ (elim o [ none ↦ none | some e ↦ some e.value ])
      go none = refl
      go (some e) = refl

  pushed_lem :
      (c d : Cache V) (k : ℕ) (v : V) {c' : Cache V}
      → make_room c ≡ ok d
      → ok (push d k v) ≡ ok c'
      → ((get c' k).0 ≡ some v) × ((j : ℕ) → k ≢ j → KeepsOrForgets j c.cache c'.cache)
  unfolding push
  pushed_lem c d k v {c'} room e =
      let new : Element V = record { id = d.pushed; key = k; value = v } in
      let to : push d k v ≡ c' = cc in
      let map_of : c'.cache ≡ insert k new d.cache = ap (λ (x : Cache V). x.cache) (sym to) in
      let found : lookup k c'.cache ≡ some new =
        ap (lookup k) map_of ∙ lookup-insert_self k new d.cache in
      (
        get_value c' k ∙ rw found refl,
        λ j ne.
            let kept : lookup j c'.cache ≡ lookup j d.cache =
              ap (lookup j) map_of ∙ lookup-insert_ne k j new d.cache ne in
            elim (make_room-KeepsOrForgets c j room) [
              | inl same ↦ inl (kept ∙ same)
              | inr gone ↦ inr (kept ∙ gone)
            ],
      )

  -- The new value under its key, and every other key kept or forgotten.
  put_new_lem :
      (c : Cache V) (k : ℕ) (v : V) {c' : Cache V}
      → put_new c k v ≡ ok c'
      → ((get c' k).0 ≡ some v) × ((j : ℕ) → k ≢ j → KeepsOrForgets j c.cache c'.cache)
  unfolding put_new
  put_new_lem c k v {c'} h = go (make_room c) refl h
    where
      go :
          (o : Outcome (Cache V))
          → make_room c ≡ o
          → (o >>= λ d. ok (push d k v)) ≡ ok c'
          → ((get c' k).0 ≡ some v) × ((j : ℕ) → k ≢ j → KeepsOrForgets j c.cache c'.cache)
      go (ok d) room e = pushed_lem c d k v room e
      go (err x) room e = cc
      go panic room e = cc

  read_of :
      (c c' : Cache V) (j : ℕ)
      → KeepsOrForgets j c.cache c'.cache
      → ((get c' j).0 ≡ (get c j).0) ⊎ ((get c' j).0 ≡ none)
  read_of c c' j (inl kept) = inl (
      get_value c' j
      ∙ ap (λ (o : Option (Element V)). elim o [ none ↦ none | some e ↦ some e.value ]) kept
      ∙ sym (get_value c j))
  read_of c c' j (inr gone) = inr (get_value c' j ∙ rw gone refl)

module _ {V : Type 0} (same : V → V → Bool) where
  -- What Get answers after a Put.
  abbrev pub IsPut : Cache V → ℕ → V → Cache V → Type 0
  IsPut c k v c' =
      ((w : V) × ((get c' k).0 ≡ some w) × ((w ≡ v) ⊎ (same w v ≡ true)))
      × ((j : ℕ) → k ≢ j → ((get c' j).0 ≡ (get c j).0) ⊎ ((get c' j).0 ≡ none))

  put_new-IsPut :
      (c d : Cache V) (k : ℕ) (v : V) {c' : Cache V}
      → d.cache ≡ c.cache
      → put_new d k v ≡ ok c'
      → IsPut c k v c'
  put_new-IsPut c d k v {c'} map_of h =
      let done = put_new_lem d k v h in
      ((v, done.0, inl refl), λ j ne. read_of c c' j (rw map_of at (done.1 j ne)))

  -- The element with the old value is taken out of the list first.
  replaced-IsPut :
      (c d : Cache V) (k : ℕ) (v : V) {c' : Cache V} (o : Option (Element V))
      → d.cache ≡ c.cache
      → (elim o [
        | none ↦ panic
        | some e ↦ put_new (record d { priority = remove e.id d.priority }) k v
      ])
        ≡ ok c'
      → IsPut c k v c'
  replaced-IsPut c d k v none map_of h = cc
  replaced-IsPut c d k v (some e) map_of h =
      put_new-IsPut c (record d { priority = remove e.id d.priority }) k v map_of h

  found-IsPut :
      (c : Cache V) (k : ℕ) (v : V) {c' : Cache V} (o : Option (Element V))
      → lookup k c.cache ≡ o
      → put_found same (get_found c o) k v ≡ ok c'
      → IsPut c k v c'
  unfolding get_found put_found
  found-IsPut c k v none known h = put_new-IsPut c c k v refl h
  found-IsPut c k v {c'} (some e) known h =
      let d : Cache V = record c { priority = move_to_front e c.priority } in
      elim (Bool-cases (same e.value v)) [
        | inl equal ↦
            let kept : ok d ≡ ok c' = rw equal at h in
            let to : d ≡ c' = cc in
            let maps : c'.cache ≡ c.cache = ap (λ (x : Cache V). x.cache) (sym to) in
            (
              (e.value, get_value c' k ∙ rw (maps, known) refl, inr equal),
              λ j ne. read_of c c' j (inl (ap (lookup j) maps)),
            )
        | inr changed ↦ replaced-IsPut c d k v (find same d.priority e.value) refl (rw changed at h)
      ]

  -- A Put that returns has its value, or one that counts as the same, under its key; every other
  -- key has the value it had, or none.
  pub put-IsPut : (c c' : Cache V) (k : ℕ) (v : V) → put same c k v ≡ ok c' → IsPut c k v c'
  unfolding put get
  put-IsPut c c' k v h = found-IsPut c k v (lookup k c.cache) refl h

  back_in :
      {V' : Type 0} (e : Element V') (es : List (Element V'))
      → (f : Element V') × (back (e ∷ es) ≡ some f)
  unfolding back
  back_in e [] = (e, refl)
  back_in e (f ∷ es) = back_in f es

  room_made :
      (c : Cache V) (front : Element V) (rest : List (Element V))
      → c.priority ≡ front ∷ rest
      → (d : Cache V) × (make_room c ≡ ok d)
  unfolding make_room remove_oldest
  room_made c front rest listed =
      let (f, last) = back_in front rest in
      let found : back c.priority ≡ some f = ap back listed ∙ last in
      elim (Bool-cases (length c.cache == c.max_size)) [
        | inl full ↦ (
          record c { priority = remove f.id c.priority; cache = delete f.key c.cache },
          rw (full, found, remove_oldest) refl,
        )
        | inr room ↦ (c, rw room refl)
      ]

  unknown_key : (c : Cache V) (k : ℕ) → (get c k).0 ≡ none → lookup k c.cache ≡ none
  unknown_key c k h = go (lookup k c.cache) (sym (get_value c k) ∙ h)
    where
      go :
          (o : Option (Element V))
          → (elim o [ none ↦ none | some e ↦ some e.value ]) ≡ none
          → o ≡ none
      go none e = refl
      go (some x) e = cc

  -- A Put under a key that is not in the cache, whose list is not empty, returns, and the key then
  -- has its value.
  pub put-new_key :
      (c : Cache V) (k : ℕ) (v : V) (front : Element V) (rest : List (Element V))
      → (get c k).0 ≡ none
      → c.priority ≡ front ∷ rest
      → (c' : Cache V) × (put same c k v ≡ ok c') × ((get c' k).0 ≡ some v)
  unfolding put put_found put_new get_found
  put-new_key c k v front rest absent listed =
      let (d, room) = room_made c front rest listed in
      let returned : put_new c k v ≡ ok (push d k v) = rw room refl in
      let asked : put same c k v ≡ put_new c k v =
        unfold get in ap (λ o. put_found same (get_found c o) k v) (unknown_key c k absent) in
      (push d k v, asked ∙ returned, (put_new_lem c k v returned).0)
