-- ===== src/Meta/Locks.antt =====
-- The lock of a volume, block/temp.go: while a client holds it, nobody else changes the volume's inode.
use torus.Base.{
  ℕ, ◌≡◌, ◌≢◌, refl, sym, ap, ◌∙◌, Bool, Option, none, some, arith, inl, inr, ◌==◌, Bool-cases,
  Outcome, ok, err, panic, Error,
}
use torus.Refs.{INodeRef, new_inode_ref}
use torus.Peers.{Uuid}
use torus.NumMap.{find, find-put}
use torus.Meta.{Server, Volume, VolumeData, get_data, set_data, create_volume}
use torus.Meta.Volumes.{
  change, create_with, create_block_volume, locked_by, synced_to, unlocked_by, saved, dropped,
}

-- The data under a key belongs to the client, with its inode.
abbrev pub IsHeld : Uuid → INodeRef → ℕ → Server → Type 0
IsHeld u i x s = (d : VolumeData) × (get_data s x ≡ some d) × (d.locked ≡ u) × (d.id ≡ i)

-- A change of the data under the lock that leaves the lock and the inode alone
abbrev pub IsHarmless : Uuid → (VolumeData → Outcome (Unit {0}) × VolumeData) → Type 0
IsHarmless u f = (d : VolumeData) → d.locked ≡ u → ((f d).1.locked ≡ d.locked) × ((f d).1.id ≡ d.id)

-- A server with the same data
pub IsHeld-same :
    (u : Uuid) (i : INodeRef) (x : ℕ) (s t : Server)
    → t.keys ≡ s.keys
    → IsHeld u i x s
    → IsHeld u i x t
unfolding get_data
IsHeld-same u i x s t e (d, got, l, n) = (d, ap (find x) e ∙ got, l, n)

IsHeld-set_data :
    (u : Uuid) (i : INodeRef) (x y : ℕ) (v : VolumeData) (s : Server)
    → ((d : VolumeData)
        → get_data s y ≡ some d
        → d.locked ≡ u
        → d.id ≡ i
        → (v.locked ≡ u) × (v.id ≡ i))
    → IsHeld u i x s
    → IsHeld u i x (set_data s y v)
unfolding get_data set_data
IsHeld-set_data u i x y v s how (d, got, l, n) = elim (Bool-cases (y == x)) [
  | inl e ↦
      let same : y ≡ x = ground arith in
      let (l', n') = how d (ap (λ k. find k s.keys) same ∙ got) l n in
      (v, find-put y x v s.keys ∙ rw e refl, l', n')
  | inr e ↦ (d, find-put y x v s.keys ∙ rw e got, l, n)
]

abbrev pub on_data : {B : Type 0} → B → (VolumeData → B) → Option VolumeData → B
on_data b g o = elim o [ none ↦ b | some d ↦ g d ]

pub IsHeld-change :
    (sprint : ℕ → ℕ) (u : Uuid) (i : INodeRef) (x vid : ℕ)
    (f : VolumeData → Outcome (Unit {0}) × VolumeData) (s : Server)
    → IsHarmless u f
    → IsHeld u i x s
    → IsHeld u i x (change sprint s vid f).1
unfolding change
IsHeld-change sprint u i x vid f s harmless h = by_data (get_data s (sprint vid)) refl
  where
    by_data :
        (o : Option VolumeData)
        → get_data s (sprint vid) ≡ o
        → IsHeld u i x
            (on_data {B = Outcome (Unit {0}) × Server}
              (err Error.not_exist, s)
              (λ d. ((f d).0, set_data s (sprint vid) (f d).1))
              o).1
    by_data none e = h
    by_data (some d) e =
        IsHeld-set_data u i x (sprint vid) (f d).1 s
          (λ d' got l n.
            let same : d' ≡ d = let e' : some d' ≡ some d = sym got ∙ e in cc in
            let (l', n') = harmless d (sym (ap (λ v. v.locked) same) ∙ l) in
            (l' ∙ sym (ap (λ v. v.locked) same) ∙ l, n' ∙ sym (ap (λ v. v.id) same) ∙ n))
          h

IsHeld-create_with :
    (u : Uuid) (i : INodeRef) (x y : ℕ) (v : Volume) (s : Server) (o : Outcome INodeRef)
    → get_data s y ≡ none
    → IsHeld u i x s
    → IsHeld u i x (create_with s v y o).1
unfolding create_with create_volume get_data
IsHeld-create_with u i x y v s (ok j) missing h =
    IsHeld-set_data u i x y _ (create_volume s v)
      (λ d got l n. absurd (let e : none ≡ some d = sym missing ∙ got in cc))
      (IsHeld-same u i x s (create_volume s v) refl h)
IsHeld-create_with u i x y v s (err e) missing h = IsHeld-same u i x s (create_volume s v) refl h
IsHeld-create_with u i x y v s panic missing h = IsHeld-same u i x s (create_volume s v) refl h

pub IsHeld-create :
    (sprint : ℕ → ℕ) (require : Bool → Outcome (Unit {0})) (u : Uuid) (i : INodeRef) (x : ℕ)
    (v : Volume) (s : Server)
    → IsHeld u i x s
    → IsHeld u i x (create_block_volume sprint require s v).1
unfolding create_block_volume
IsHeld-create sprint require u i x v s h = by_data (get_data s (sprint v.id)) refl
  where
    by_data :
        (o : Option VolumeData)
        → get_data s (sprint v.id) ≡ o
        → IsHeld u i x
            (on_data {B = Outcome (Unit {0}) × Server}
              (create_with s v (sprint v.id) (new_inode_ref require v.id 1))
              (λ d. (err Error.exists_already, s))
              o).1
    by_data none e = IsHeld-create_with u i x (sprint v.id) v s (new_inode_ref require v.id 1) e h
    by_data (some d) e = h

-- What a client without the lock does to the data
pub locked_by-IsHarmless : (u w : Uuid) → u ≢ 0 → IsHarmless u (locked_by w)
locked_by-IsHarmless u w pos d l = ground arith

pub synced_to-IsHarmless : (u w : Uuid) (j : INodeRef) → w ≢ u → IsHarmless u (synced_to w j)
synced_to-IsHarmless u w j ne d l = ground arith

pub unlocked_by-IsHarmless : (u w : Uuid) → w ≢ u → IsHarmless u (unlocked_by w)
unlocked_by-IsHarmless u w ne d l = ground arith

pub saved-IsHarmless : (u : Uuid) (name now : ℕ) → IsHarmless u (saved name now)
unfolding saved
saved-IsHarmless u name now d l = ground arith

pub dropped-IsHarmless : (u : Uuid) (name : ℕ) → IsHarmless u (dropped name)
unfolding dropped
dropped-IsHarmless u name d l = ground arith
