-- ===== src/Ring/Members.antt =====
-- Who is in a list of infos after AddPeers or RemovePeers of a ring, and whether it has changed.
use torus.Base.{
  suc, ◌≡◌, refl, sym, ap, ◌∙◌, Bool, true, false, not, ◌&&◌, ◌||◌, [], ◌∷◌, ◌++◌, append-nil,
  ==_self, arith, inl, inr, ◌⊎◌, length, ◌==◌, Bool-cases, bytes_eq, bytes_eq→eq, bytes_eq_refl,
}
use torus.Peers.{
  Uuid, PeerList, PeerInfoList, peer_list, has, keep, union, and_not, info_union, info_and_not,
}
use torus.Peers.Sets.{elem, has-elem, has_of_sets}
use torus.Peers.Infos.{
  peer_list-info_union, peer_list-info_and_not, length-peer_list, length-union_same,
}

-- Who is a member after infos have been joined, or taken out.
pub has-info_union :
    (a b : PeerInfoList) (u : Uuid)
    → has (peer_list (info_union a b)) u ≡ (has (peer_list a) u || has (peer_list b) u)
has-info_union a b u =
    ap (λ l. has l u) (peer_list-info_union a b) ∙ (has_of_sets (peer_list a) (peer_list b) u).1

pub has-info_and_not :
    (a : PeerInfoList) (b : PeerList) (u : Uuid)
    → has (peer_list (info_and_not a b)) u ≡ (has (peer_list a) u && not (has b u))
has-info_and_not a b u =
    ap (λ l. has l u) (peer_list-info_and_not a b) ∙ (has_of_sets (peer_list a) b u).0

-- `DeepEqual` on the identifiers holds only if nobody is new.
pub nobody_new :
    (a b : PeerInfoList) (u : Uuid)
    → bytes_eq (peer_list (info_union a b)) (peer_list a) ≡ true
    → has (peer_list b) u ≡ true
    → has (peer_list a) u ≡ true
nobody_new a b u e h =
    let same : peer_list (info_union a b) ≡ peer_list a =
      bytes_eq→eq (peer_list (info_union a b)) (peer_list a) e in
    length-union_same (peer_list a) (peer_list b) u
      (ap length (sym (peer_list-info_union a b) ∙ same)) h

-- What passes a test, and what does not, when there is any.
some_kept :
    (p : Uuid → Bool) (xs : PeerList)
    → (keep p xs ≡ []) ⊎ ((u : Uuid) × (elem xs u ≡ true) × (p u ≡ true))
some_kept p [] = inl refl
some_kept p (x ∷ xs) = elim (Bool-cases (p x)) [
  | inl e ↦ inr (x, rw (==_self x) refl, e)
  | inr e ↦ elim (some_kept p xs) [
    | inl nobody ↦ inl (rw e nobody)
    | inr (u, there, passes) ↦ inr (u, ground (arith, there), passes)
  ]
]

some_dropped :
    (p : Uuid → Bool) (xs : PeerList)
    → (length (keep p xs) ≡ length xs) ⊎ ((u : Uuid) × (elem xs u ≡ true) × (p u ≡ false))
some_dropped p [] = inl refl
some_dropped p (x ∷ xs) = elim (Bool-cases (p x)) [
  | inr e ↦ inr (x, rw (==_self x) refl, e)
  | inl e ↦ elim (some_dropped p xs) [
    | inl all ↦ inl (rw e (ap suc all))
    | inr (u, there, fails) ↦ inr (u, ground (arith, there), fails)
  ]
]

-- A changed list of identifiers has somebody new.
pub somebody_new :
    (a b : PeerInfoList)
    → bytes_eq (peer_list (info_union a b)) (peer_list a) ≡ false
    → (u : Uuid) × (has (peer_list b) u ≡ true) × (has (peer_list a) u ≡ false)
unfolding union
somebody_new a b e = elim (some_kept (λ x. not (has (peer_list a) x)) (peer_list b)) [
  | inl nobody ↦
      let same : peer_list (info_union a b) ≡ peer_list a =
        peer_list-info_union a b ∙ ap (λ l. peer_list a ++ l) nobody ∙ append-nil (peer_list a) in
      let equal : bytes_eq (peer_list (info_union a b)) (peer_list a) ≡ true =
        ap (λ l. bytes_eq l (peer_list a)) same ∙ bytes_eq_refl (peer_list a) in
      absurd (let wrong : true ≡ false = sym equal ∙ e in cc)
  | inr (u, there, fresh) ↦ (u, has-elem (peer_list b) u ∙ there, ground (arith, fresh))
]

-- A shorter list of infos lacks a member.
pub somebody_gone :
    (a : PeerInfoList) (b : PeerList)
    → (length (info_and_not a b) == length a) ≡ false
    → (u : Uuid) × (has (peer_list a) u ≡ true) × (has b u ≡ true)
unfolding and_not
somebody_gone a b e = elim (some_dropped (λ x. not (has b x)) (peer_list a)) [
  | inl all ↦
      let kept : length (peer_list (info_and_not a b)) ≡ length (peer_list a) =
        ap length (peer_list-info_and_not a b) ∙ all in
      absurd (ground (arith, kept, length-peer_list (info_and_not a b), length-peer_list a, e))
  | inr (u, there, listed) ↦ (u, has-elem (peer_list a) u ∙ there, ground (arith, listed))
]
