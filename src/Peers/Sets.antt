-- ===== src/Peers/Sets.antt =====
-- Union, difference and intersection of peer lists, as sets of identifiers and as lists.
use torus.Base.{
  ℕ, ◌+◌, ◌≡◌, refl, ◌∙◌, Bool, true, false, not, ◌&&◌, ◌||◌, none, some, [], ◌∷◌, ◌++◌, arith, inl,
  inr, ◌==◌, if◌then◌else◌, Bool-cases, ==_iff,
}
use torus.Peers.{Uuid, PeerList, index_from, index_at, has, keep, and_not, union, intersect}

-- `Has`, by recursion.
abbrev pub elem : PeerList → Uuid → Bool
elem [] u = false
elem (x ∷ xs) u = if x == u then true else elem xs u

index_from-elem :
    (i : ℕ) (pl : PeerList) (u : Uuid)
    → (elim (index_from i pl u) [ none ↦ false | some j ↦ true ]) ≡ elem pl u
unfolding index_from
index_from-elem i [] u = refl
index_from-elem i (x ∷ xs) u = elim (Bool-cases (x == u)) [
  | inl e ↦ rw e
  | inr e ↦ rw e (index_from-elem (i + 1) xs u)
]

pub has-elem : (pl : PeerList) (u : Uuid) → has pl u ≡ elem pl u
unfolding has index_at
has-elem pl u = index_from-elem 0 pl u

elem-append : (xs ys : PeerList) (u : Uuid) → elem (xs ++ ys) u ≡ (elem xs u || elem ys u)
elem-append [] ys u = refl
elem-append (x ∷ xs) ys u = ground (arith, elem-append xs ys u)

-- What passes a test on identifiers.
elem-keep : (p : Uuid → Bool) (xs : PeerList) (u : Uuid) → elem (keep p xs) u ≡ (elem xs u && p u)
elem-keep p [] u = refl
elem-keep p (x ∷ xs) u = elim (Bool-cases (x == u)) [
  | inl e ↦ let same : x ≡ u = (==_iff x u).0 e in rw same (ground (arith, elem-keep p xs u))
  | inr e ↦ ground (arith, elem-keep p xs u)
]

-- A peer is in the difference when it is in the list and not in the other, in the union when it is
-- in one of the two, and in the intersection when it is in both.
pub has_of_sets :
    (a b : PeerList) (u : Uuid)
    → (has (and_not a b) u ≡ (has a u && not (has b u)))
      × (has (union a b) u ≡ (has a u || has b u))
      × (has (intersect a b) u ≡ (has a u && has b u))
unfolding and_not union intersect
has_of_sets a b u =
    let difference =
      has-elem (keep (λ x. not (has b x)) a) u ∙ elem-keep (λ x. not (has b x)) a u in
    let joined =
      has-elem (a ++ keep (λ x. not (has a x)) b) u
      ∙ elem-append a (keep (λ x. not (has a x)) b) u in
    let added = elem-keep (λ x. not (has a x)) b u in
    let both = has-elem (keep (λ x. has b x) a) u ∙ elem-keep (λ x. has b x) a u in
    (
      ground (arith, difference, has-elem a u),
      ground (arith, joined, added, has-elem a u, has-elem b u),
      ground (arith, both, has-elem a u),
    )

-- No identifier stands in the list twice.
abbrev pub IsDistinct : PeerList → Type 0
IsDistinct [] = Unit
IsDistinct (x ∷ xs) = (elem xs x ≡ false) × IsDistinct xs

keep-IsDistinct : (p : Uuid → Bool) (xs : PeerList) → IsDistinct xs → IsDistinct (keep p xs)
keep-IsDistinct p [] h = tt
keep-IsDistinct p (x ∷ xs) h = ground (arith, elem-keep p xs x, keep-IsDistinct p xs h.1)

append-IsDistinct :
    (xs ys : PeerList)
    → IsDistinct xs
    → IsDistinct ys
    → ((u : Uuid) → elem xs u ≡ true → elem ys u ≡ false)
    → IsDistinct (xs ++ ys)
append-IsDistinct [] ys h k apart = k
append-IsDistinct (x ∷ xs) ys h k apart = (
  elem-append xs ys x ∙ rw h.0 (apart x (ground arith)),
  append-IsDistinct xs ys h.1 k (λ u e. apart u (ground arith)),
)

-- The union of two lists without repetitions has none.
pub union-IsDistinct : (a b : PeerList) → IsDistinct a → IsDistinct b → IsDistinct (union a b)
unfolding union
union-IsDistinct a b h k =
    append-IsDistinct a (keep (λ x. not (has a x)) b) h (keep-IsDistinct (λ x. not (has a x)) b k)
      (λ u e. ground (arith, elem-keep (λ x. not (has a x)) b u, has-elem a u))

-- What a list without repetitions says of its parts, and the parts the other way round.
append-parts :
    (xs ys : PeerList)
    → IsDistinct (xs ++ ys)
    → IsDistinct xs × IsDistinct ys × ((u : Uuid) → elem xs u ≡ true → elem ys u ≡ false)
append-parts [] ys h = (tt, h, λ u e. cc)
append-parts (x ∷ xs) ys h =
    let rest = append-parts xs ys h.1 in
    (
      (ground (arith, elem-append xs ys x), rest.0),
      rest.1,
      λ u e. elim (Bool-cases (x == u)) [
        | inl same ↦
            let at : x ≡ u = (==_iff x u).0 same in rw (← at) (ground (arith, elem-append xs ys x))
        | inr other ↦ rest.2 u (rw other at e)
      ],
    )

pub swap_parts-IsDistinct : (xs ys : PeerList) → IsDistinct (xs ++ ys) → IsDistinct (ys ++ xs)
swap_parts-IsDistinct xs ys h =
    let parts = append-parts xs ys h in
    append-IsDistinct ys xs parts.1 parts.0 (λ u e. elim (Bool-cases (elem xs u)) [
      | inl both ↦ let no_more : elem ys u ≡ false = parts.2 u both in cc
      | inr fine ↦ fine
    ])

pub has-append : (xs ys : PeerList) (u : Uuid) → has (xs ++ ys) u ≡ (has xs u || has ys u)
has-append xs ys u =
    ground (arith, has-elem (xs ++ ys) u, has-elem xs u, has-elem ys u, elem-append xs ys u)

pub append_one-IsDistinct :
    (xs : PeerList) (u : Uuid) → IsDistinct xs → elem xs u ≡ false → IsDistinct (xs ++ (u ∷ []))
append_one-IsDistinct xs u h absent =
    append-IsDistinct xs (u ∷ []) h (refl, tt)
      (λ w e. elim (Bool-cases (u == w)) [
        | inl same ↦
            let at : u ≡ w = (==_iff u w).0 same in
            let no_u : elem xs w ≡ false = rw (← at) absent in cc
        | inr other ↦ rw other
      ])
