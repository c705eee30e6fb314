-- ===== src/Peers/Infos.antt =====
-- The operations on peer infos are those on their identifiers; and how long a union is.
use torus.Base.{
  ℕ, suc, ◌+◌, ◌≤◌, ◌≡◌, refl, sym, ap, ◌∙◌, Bool, true, false, not, ◌||◌, Option, none, some, [],
  ◌∷◌, ◌++◌, arith, inl, inr, length, length-append, ◌==◌, if◌then◌else◌, Bool-cases, ==_iff,
}
use torus.Peers.{
  Uuid, PeerList, PeerInfo, PeerInfoList, has, keep, and_not, union, peer_list, uuid_from, uuid_at,
  has_uuid, info_and_not, info_union, index_from, index_at,
}
use torus.Peers.Sets.{elem, has-elem, IsDistinct}

uuid_from-index_from :
    (i : ℕ) (pi : PeerInfoList) (u : Uuid) → uuid_from i pi u ≡ index_from i (peer_list pi) u
unfolding uuid_from index_from peer_list
uuid_from-index_from i [] u = refl
uuid_from-index_from i (x ∷ xs) u =
    ap (λ r. if x.uuid == u then some i else r) (uuid_from-index_from (i + 1) xs u)

pub has_uuid-has : (pi : PeerInfoList) (u : Uuid) → has_uuid pi u ≡ has (peer_list pi) u
unfolding has_uuid has uuid_at index_at
has_uuid-has pi u =
    ap (λ (o : Option ℕ). elim o [ none ↦ false | some i ↦ true ]) (uuid_from-index_from 0 pi u)

map-keep :
    (p : Uuid → Bool) (q : PeerInfo → Bool) (pi : PeerInfoList)
    → ((x : PeerInfo) → q x ≡ p x.uuid)
    → peer_list (keep q pi) ≡ keep p (peer_list pi)
unfolding peer_list
map-keep p q [] h = refl
map-keep p q (x ∷ xs) h = elim (Bool-cases (p x.uuid)) [
  | inl e ↦ rw (h x ∙ e, e) (ap (λ l. x.uuid ∷ l) (map-keep p q xs h))
  | inr e ↦ rw (h x ∙ e, e) (map-keep p q xs h)
]

peer_list-append : (a b : PeerInfoList) → peer_list (a ++ b) ≡ peer_list a ++ peer_list b
unfolding peer_list
peer_list-append [] b = refl
peer_list-append (x ∷ xs) b = ap (λ l. x.uuid ∷ l) (peer_list-append xs b)

pub peer_list-info_union :
    (a b : PeerInfoList) → peer_list (info_union a b) ≡ union (peer_list a) (peer_list b)
unfolding info_union union
peer_list-info_union a b =
    peer_list-append a (keep (λ x. not (has_uuid a x.uuid)) b)
    ∙ ap (λ l. peer_list a ++ l)
        (map-keep (λ u. not (has (peer_list a) u)) (λ x. not (has_uuid a x.uuid)) b
          (λ x. ap not (has_uuid-has a x.uuid)))

pub peer_list-info_and_not :
    (a : PeerInfoList) (b : PeerList) → peer_list (info_and_not a b) ≡ and_not (peer_list a) b
unfolding info_and_not and_not
peer_list-info_and_not a b = map-keep (λ u. not (has b u)) (λ x. not (has b x.uuid)) a (λ x. refl)

pub length-peer_list : (pi : PeerInfoList) → length (peer_list pi) ≡ length pi
unfolding peer_list
length-peer_list [] = refl
length-peer_list (x ∷ xs) = ap suc (length-peer_list xs)

-- The elements of `b` that pass a test, counted.
count : (Uuid → Bool) → PeerList → ℕ
count p [] = 0
count p (x ∷ xs) = let rest = count p xs in if p x then suc rest else rest

length-keep : (p : Uuid → Bool) (xs : PeerList) → length (keep p xs) ≡ count p xs
unfolding count
length-keep p [] = refl
length-keep p (x ∷ xs) = ground (arith, length-keep p xs)

count_split : (p : Uuid → Bool) (xs : PeerList) → count p xs + count (λ x. not (p x)) xs ≡ length xs
unfolding count
count_split p [] = omega arith
count_split p (x ∷ xs) = ground (arith, count_split p xs)

count_or :
    (p q r : Uuid → Bool) (xs : PeerList)
    → ((u : Uuid) → p u ≡ (q u || r u))
    → count p xs ≤ count q xs + count r xs
unfolding count
count_or p q r [] h = omega arith
count_or p q r (x ∷ xs) h = ground (arith, h x, count_or p q r xs h)

count_absent : (u : Uuid) (xs : PeerList) → elem xs u ≡ false → count (λ x. u == x) xs ≡ 0
unfolding count
count_absent u [] h = refl
count_absent u (x ∷ xs) h = ground (arith, count_absent u xs)

count_once : (u : Uuid) (xs : PeerList) → IsDistinct xs → count (λ x. u == x) xs ≤ 1
unfolding count
count_once u [] h = omega arith
count_once u (x ∷ xs) h = elim (Bool-cases (u == x)) [
  | inl e ↦
      let same : u ≡ x = (==_iff u x).0 e in
      let absent : count (λ y. u == y) xs ≡ 0 = count_absent u xs (rw same h.0) in
      ground (arith, absent)
  | inr e ↦ ground (arith, count_once u xs h.1)
]

count_none : (b : PeerList) → count (λ x. false) b ≤ 0
unfolding count
count_none [] = omega arith
count_none (x ∷ xs) = count_none xs

-- Distinct identifiers that all stand in `a` are no more than `a` has.
pigeonhole : (a b : PeerList) → IsDistinct b → count (λ x. elem a x) b ≤ length a
pigeonhole [] b h = count_none b
pigeonhole (u ∷ a) b h = omega (
  arith,
  count_or (λ x. elem (u ∷ a) x) (λ x. u == x) (λ x. elem a x) b (λ x. ground arith),
  count_once u b h,
  pigeonhole a b h,
)

count_same :
    (p q : Uuid → Bool) (xs : PeerList) → ((u : Uuid) → p u ≡ q u) → count p xs ≡ count q xs
unfolding count
count_same p q [] h = refl
count_same p q (x ∷ xs) h = ground (arith, h x, count_same p q xs h)

-- A union is as long as each of its parts, if the second has no repetitions.
pub length-union_ge :
    (a b : PeerList)
    → IsDistinct b
    → (length a ≤ length (union a b)) × (length b ≤ length (union a b))
unfolding union
length-union_ge a b h =
    let total = length-append a (keep (λ x. not (has a x)) b) in
    let added = length-keep (λ x. not (has a x)) b in
    let split = count_split (λ x. has a x) b in
    let same = count_same (λ x. has a x) (λ x. elem a x) b (λ u. has-elem a u) in
    let few = pigeonhole a b h in
    (omega (arith, total), omega (arith, total, added, split, same, few))

known_of_count :
    (a b : PeerList) (u : Uuid)
    → count (λ x. not (has a x)) b ≡ 0
    → elem b u ≡ true
    → has a u ≡ true
unfolding count
known_of_count a [] u z h = cc
known_of_count a (x ∷ xs) u z h = elim (Bool-cases (x == u)) [
  | inl same ↦ let e : x ≡ u = (==_iff x u).0 same in rw (← e) (ground arith)
  | inr other ↦ known_of_count a xs u (ground arith) (rw other at h)
]

-- If the union is no longer than `a`, every peer of `b` is in `a`.
pub length-union_same :
    (a b : PeerList) (u : Uuid) → length (union a b) ≡ length a → has b u ≡ true → has a u ≡ true
unfolding union
length-union_same a b u e h =
    let none_new : length (keep (λ x. not (has a x)) b) ≡ 0 =
      omega (arith, e, length-append a (keep (λ x. not (has a x)) b)) in
    known_of_count a b u (sym (length-keep (λ x. not (has a x)) b) ∙ none_new)
      (sym (has-elem b u) ∙ h)

kept_of_count :
    (a b : PeerList) (u : Uuid)
    → count (λ x. not (has b x)) a ≡ length a
    → elem a u ≡ true
    → has b u ≡ false
unfolding count
kept_of_count [] b u z h = cc
kept_of_count (x ∷ xs) b u z h =
    let few = count_split (λ y. not (has b y)) xs in
    elim (Bool-cases (x == u)) [
      | inl same ↦ let e : x ≡ u = (==_iff x u).0 same in rw (← e) (ground (arith, few))
      | inr other ↦ kept_of_count xs b u (ground (arith, few)) (rw other at h)
    ]

-- If the difference is no shorter than `a`, no peer of `a` is in `b`.
pub length-and_not_same :
    (a b : PeerList) (u : Uuid) → length (and_not a b) ≡ length a → has a u ≡ true → has b u ≡ false
unfolding and_not
length-and_not_same a b u e h =
    kept_of_count a b u (sym (length-keep (λ x. not (has b x)) a) ∙ e) (sym (has-elem a u) ∙ h)
