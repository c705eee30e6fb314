-- ===== src/Gc/Marks.antt =====
-- What the collector of block/gc_block_vol.go has marked stays marked while it goes over more volumes.
use torus.Base.{
  ℕ, zero, suc, ◌<◌, ◌≡◌, ◌⊎◌, refl, sym, ap, subst, ◌∙◌, Bool, true, false, List, [], ◌∷◌, ◌++◌,
  Option, none, some, arith, inl, inr, ltb, ◌==◌, if◌then◌else◌, Bool-cases, get_elem?,
}
use torus.Refs.{INodeRef, BlockRef, volume_of, type_inode, has_inode, is_zero, block_ref_eq}
use torus.RefMap.{lookup, insert, lookup-insert, lookup-insert_self}
use torus.NumMap.{NumMap, find, put, find_or, find-put, find-put_self}
use torus.Gc.{BlockVolGc, raised, mark, mark_all, is_current}

-- The collector has looked at the volume.
abbrev pub IsKnown : ℕ → BlockVolGc → Type 0
IsKnown vol g = (h : ℕ) × (find vol g.highwaters ≡ some h)

-- What a later state of the collector has kept of an earlier one
pub record Extends (g g' : BlockVolGc) : Type 0 where
  pub known : (vol : ℕ) → IsKnown vol g → IsKnown vol g'
  pub marked : (r : BlockRef) → lookup r g.set ≡ some true → lookup r g'.set ≡ some true
  pub listed : (r : BlockRef) → is_current g.cur_inodes r ≡ true → is_current g'.cur_inodes r ≡ true

pub Extends-refl : (g : BlockVolGc) → Extends g g
Extends-refl g = record { known = λ v h. h; marked = λ r h. h; listed = λ r h. h }

pub Extends-trans : {a b c : BlockVolGc} → Extends a b → Extends b c → Extends a c
Extends-trans x y = record {
  known = λ v h. y.known v (x.known v h);
  marked = λ r h. y.marked r (x.marked r h);
  listed = λ r h. y.listed r (x.listed r h);
}

pub known_put :
    (vol k h : ℕ) (m : NumMap ℕ)
    → (v : ℕ) × (find vol m ≡ some v)
    → (v : ℕ) × (find vol (put k h m) ≡ some v)
known_put vol k h m (v, e) = elim (Bool-cases (k == vol)) [
  | inl same ↦ (h, find-put k vol h m ∙ rw same refl)
  | inr other ↦ (v, find-put k vol h m ∙ rw other e)
]

known_raised :
    (vol : ℕ) (r : BlockRef) (m : NumMap ℕ)
    → (v : ℕ) × (find vol m ≡ some v)
    → (v : ℕ) × (find vol (raised m r) ≡ some v)
unfolding raised
known_raised vol r m h = elim (Bool-cases (ltb (find_or 0 (volume_of r.inode_ref) m) r.inode)) [
  | inl up ↦ rw up (known_put vol (volume_of r.inode_ref) r.inode m h)
  | inr down ↦ rw down h
]

pub mark-Extends : (g : BlockVolGc) (r : BlockRef) → Extends g (mark g r)
unfolding mark
mark-Extends g r = by_zero (is_zero r)
  where
    stays : (b : Bool) (o : Option Bool) → o ≡ some true → (if b then some true else o) ≡ some true
    stays true o h = refl
    stays false o h = h

    by_zero :
        (b : Bool)
        → Extends g (
            if b
            then g
            else record g { set = insert r true g.set; highwaters = raised g.highwaters r })
    by_zero true = Extends-refl g
    by_zero false = record {
      known = λ vol h. known_raised vol r g.highwaters h;
      marked = λ q h. lookup-insert r q true g.set ∙ stays (block_ref_eq r q) (lookup q g.set) h;
      listed = λ q h. h;
    }

pub mark_all-Extends : (g : BlockVolGc) (rs : List BlockRef) → Extends g (mark_all g rs)
unfolding mark_all
mark_all-Extends g [] = Extends-refl g
mark_all-Extends g (r ∷ rs) = Extends-trans (mark-Extends g r) (mark_all-Extends (mark g r) rs)

known_or : (o : Option ℕ) → 0 < (elim o [ none ↦ 0 | some w ↦ w ]) → (v : ℕ) × (o ≡ some v)
known_or none h = absurd (omega arith)
known_or (some v) h = (v, refl)

raised_known :
    (r : BlockRef) (m : NumMap ℕ)
    → 0 < r.inode
    → (v : ℕ) × (find (volume_of r.inode_ref) (raised m r) ≡ some v)
unfolding raised
raised_known r m pos = elim (Bool-cases (ltb (find_or 0 (volume_of r.inode_ref) m) r.inode)) [
  | inl up ↦ rw up (r.inode, find-put_self (volume_of r.inode_ref) r.inode m)
  | inr down ↦ rw down (known_or (find (volume_of r.inode_ref) m) (ground arith))
]

-- A reference of a written inode is not zero, and the collector knows its volume.
mark-IsMarked :
    (g : BlockVolGc) (r : BlockRef)
    → 0 < r.inode
    → IsKnown (volume_of r.inode_ref) (mark g r) × (lookup r (mark g r).set ≡ some true)
unfolding mark is_zero
mark-IsMarked g r pos =
    let nonzero : is_zero r ≡ false = ground arith in
    rw nonzero (raised_known r g.highwaters pos, lookup-insert_self r true g.set)

pub mark_all-IsMarked :
    (g : BlockVolGc) (rs : List BlockRef) (i : ℕ) (r : BlockRef)
    → get_elem? rs i ≡ some r
    → 0 < r.inode
    → IsKnown (volume_of r.inode_ref) (mark_all g rs) × (lookup r (mark_all g rs).set ≡ some true)
unfolding mark_all
mark_all-IsMarked g [] i r h pos = absurd cc
mark_all-IsMarked g (q ∷ rs) zero r h pos =
    let same : q ≡ r = cc in
    let (known, marked) = mark-IsMarked g r pos in
    let on = mark_all-Extends (mark g r) rs in
    subst
      (λ x.
        IsKnown (volume_of r.inode_ref) (mark_all (mark g x) rs)
        × (lookup r (mark_all (mark g x) rs).set ≡ some true))
      (sym same) (on.known (volume_of r.inode_ref) known, on.marked r marked)
mark_all-IsMarked g (q ∷ rs) (suc i) r h pos = mark_all-IsMarked (mark g q) rs i r h pos

-- An inode in the list keeps its blocks.
pub is_current-append :
    (xs ys : List INodeRef) (r : BlockRef)
    → (is_current xs r ≡ true) ⊎ (is_current ys r ≡ true)
    → is_current (xs ++ ys) r ≡ true
unfolding is_current
is_current-append [] ys r (inl h) = cc
is_current-append [] ys r (inr h) = h
is_current-append (x ∷ xs) ys r h = elim (Bool-cases (has_inode r x type_inode)) [
  | inl e ↦ rw e refl
  | inr e ↦ rw e (
      is_current-append xs ys r (elim h [
        | inl a ↦ inl (sym (ap (λ b. if b then true else is_current xs r) e) ∙ a)
        | inr b ↦ inr b
      ]))
]

pub is_current_at :
    (xs : List INodeRef) (j : ℕ) (x : INodeRef) (r : BlockRef)
    → get_elem? xs j ≡ some x
    → has_inode r x type_inode ≡ true
    → is_current xs r ≡ true
unfolding is_current
is_current_at [] j x r h e = absurd cc
is_current_at (y ∷ xs) zero x r h e =
    let same : x ≡ y = cc in
    let e' : has_inode r y type_inode ≡ true = sym (ap (λ z. has_inode r z type_inode) same) ∙ e in
    rw e' refl
is_current_at (y ∷ xs) (suc j) x r h e = elim (Bool-cases (has_inode r y type_inode)) [
  | inl e' ↦ rw e' refl
  | inr e' ↦ rw e' (is_current_at xs j x r h e)
]
