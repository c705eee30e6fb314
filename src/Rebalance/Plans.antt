-- ===== src/Rebalance/Plans.antt =====
-- The first loop of a tick, distributor/rebalance/tick.go: a block that is marked for deletion is on the list of
-- each peer that the ring wants it on, and this server is none of them.
use torus.Base.{
  ℕ, zero, suc, ◌+◌, ◌≡◌, refl, sym, ap, subst, ◌∙◌, Bool, true, false, List, [], ◌∷◌, ◌++◌, Option,
  none, some, length, take, arith, inl, inr, ltb, get_elem?, get_elem?-append_last,
  get_elem?-append_left, get_elem?-lt, Bool-cases, ◌==◌, if◌then◌else◌, ok, panic,
}
use torus.Refs.{BlockRef, block_ref_eq}
use torus.Refs.Fields.{block_ref_eq_iff}
use torus.RefMap.{lookup, insert, lookup-insert}
use torus.NumMap.{NumMap, find, put, find_or, find-put, find-put_self}
use torus.Peers.{Uuid, PeerList, PeerPermutation, index_at}
use torus.Rebalance.{Plan, Guide, is_mine, want_from, plan_block}

-- The block is on the list of the peer.
abbrev pub IsWanted : Uuid → BlockRef → NumMap (List BlockRef) → Type 0
IsWanted p r m = (rs : List BlockRef) × (find p m ≡ some rs) × (i : ℕ) × (get_elem? rs i ≡ some r)

abbrev added : Uuid → BlockRef → NumMap (List BlockRef) → NumMap (List BlockRef)
added q r m = put q (find_or [] q m ++ (r ∷ [])) m

added_self : (q : Uuid) (r : BlockRef) (m : NumMap (List BlockRef)) → IsWanted q r (added q r m)
added_self q r m =
    let xs : List BlockRef = find_or [] q m in
    (xs ++ (r ∷ []), find-put_self q (xs ++ (r ∷ [])) m, length xs, get_elem?-append_last xs r)

added_keeps :
    (q : Uuid) (r' : BlockRef) (p : Uuid) (r : BlockRef) (m : NumMap (List BlockRef))
    → IsWanted p r m
    → IsWanted p r (added q r' m)
added_keeps q r' p r m (rs, listed, i, at_r) = elim (Bool-cases (q == p)) [
  | inl same ↦
      let peer : q ≡ p = ground arith in
      let list : find q m ≡ some rs = ap (λ n. find n m) peer ∙ listed in
      let old : find_or [] q m ≡ rs = rw (list, find_or) refl in
      (
        find_or [] q m ++ (r' ∷ []),
        find-put q p (find_or [] q m ++ (r' ∷ [])) m ∙ rw same refl,
        i,
        ap (λ l. get_elem? (l ++ (r' ∷ [])) i) old
            ∙ (get_elem?-append_left rs (r' ∷ []) i (get_elem?-lt rs i r at_r) ∙ at_r),
      )
  | inr other ↦ (rs, find-put q p (find_or [] q m ++ (r' ∷ [])) m ∙ rw other listed, i, at_r)
]

want_keeps :
    (j : ℕ) (mine : Option ℕ) (ps : PeerList) (q : BlockRef) (m : NumMap (List BlockRef)) (p : Uuid)
    (r : BlockRef)
    → IsWanted p r m
    → IsWanted p r (want_from j mine ps q m)
unfolding want_from
want_keeps j mine [] q m p r w = w
want_keeps j mine (x ∷ ps) q m p r w =
    want_keeps (j + 1) mine ps q (if is_mine mine j then m else added x q m) p r
      (by_mine (is_mine mine j))
  where
    by_mine : (b : Bool) → IsWanted p r (if b then m else added x q m)
    by_mine true = w
    by_mine false = added_keeps x q p r m w

want_all :
    (j : ℕ) (ps : PeerList) (r : BlockRef) (m : NumMap (List BlockRef)) (k : ℕ) (p : Uuid)
    → get_elem? ps k ≡ some p
    → IsWanted p r (want_from j none ps r m)
unfolding want_from
want_all j [] r m k p at_p = absurd cc
want_all j (x ∷ ps) r m zero p at_p =
    let same : x ≡ p = cc in
    want_keeps (j + 1) none ps r (added x r m) p r
      (subst (λ y. IsWanted y r (added x r m)) same (added_self x r m))
want_all j (x ∷ ps) r m (suc k) p at_p = want_all (j + 1) ps r (added x r m) k p at_p

-- The ring wants the block on other servers than this one, and it is on the lists of all of them.
pub record IsElsewhere (g : Guide) (r : BlockRef) (m : NumMap (List BlockRef)) : Type 0 where
  pub perm : PeerPermutation
  pub placed : g.get_peers r ≡ ok perm
  pub absent : index_at (take perm.replication perm.peers) g.me ≡ none
  pub wanted :
      (k : ℕ) (p : Uuid) → get_elem? (take perm.replication perm.peers) k ≡ some p → IsWanted p r m

abbrev pub IsPlan : Guide → Plan → Type 0
IsPlan g x = (r : BlockRef) → lookup r x.to_delete ≡ some true → IsElsewhere g r x.wanted

IsElsewhere-keeps :
    (g : Guide) (j : ℕ) (mine : Option ℕ) (ps : PeerList) (q r : BlockRef)
    (m : NumMap (List BlockRef))
    → IsElsewhere g r m
    → IsElsewhere g r (want_from j mine ps q m)
IsElsewhere-keeps g j mine ps q r m e = record {
  perm = e.perm;
  placed = e.placed;
  absent = e.absent;
  wanted = λ k p at_p. want_keeps j mine ps q m p r (e.wanted k p at_p);
}

abbrev pub next_plan : Plan → BlockRef → PeerList → Option ℕ → Plan
next_plan x r desired mine = record x {
  wanted = want_from 0 mine desired r x.wanted;
  to_delete = elim mine [ none ↦ insert r true x.to_delete | some i ↦ x.to_delete ];
}

next-IsPlan :
    (g : Guide) (x : Plan) (r : BlockRef) (perm : PeerPermutation) (mine : Option ℕ)
    → g.get_peers r ≡ ok perm
    → index_at (take perm.replication perm.peers) g.me ≡ mine
    → IsPlan g x
    → IsPlan g (next_plan x r (take perm.replication perm.peers) mine)
next-IsPlan g x r perm (some i) placed at_me v q a =
    IsElsewhere-keeps g 0 (some i) (take perm.replication perm.peers) r q x.wanted (v q a)
next-IsPlan g x r perm none placed at_me v q a = elim (Bool-cases (block_ref_eq r q)) [
  | inl same ↦
      let one : r ≡ q = (block_ref_eq_iff r q).0 same in
      let here_ : IsElsewhere g r (want_from 0 none (take perm.replication perm.peers) r x.wanted) =
        record {
          perm = perm;
          placed = placed;
          absent = at_me;
          wanted = λ k p at_p. want_all 0 (take perm.replication perm.peers) r x.wanted k p at_p;
        } in
      subst (λ z. IsElsewhere g z (want_from 0 none (take perm.replication perm.peers) r x.wanted))
        one here_
  | inr other ↦
      let old : lookup q x.to_delete ≡ some true =
        sym (ap (λ b. if b then some true else lookup q x.to_delete) other)
        ∙ (sym (lookup-insert r q true x.to_delete) ∙ a) in
      IsElsewhere-keeps g 0 none (take perm.replication perm.peers) r q x.wanted (v q old)
]

pub plan_block-IsPlan :
    (g : Guide) (x x' : Plan) (r : BlockRef) (perm : PeerPermutation)
    → g.get_peers r ≡ ok perm
    → plan_block g.me x r perm ≡ ok x'
    → IsPlan g x
    → IsPlan g x'
unfolding plan_block
plan_block-IsPlan g x x' r perm placed e v =
    let desired = take perm.replication perm.peers in
    by_size (ltb (length perm.peers) perm.replication) e
  where
    by_size :
        (b : Bool)
        → (if b
            then panic
            else ok (
                next_plan x r
                  (take perm.replication perm.peers)
                  (index_at (take perm.replication perm.peers) g.me)))
          ≡ ok x'
        → IsPlan g x'
    by_size true e = absurd cc
    by_size false e =
        subst (IsPlan g)
          (let same : next_plan x r (take perm.replication perm.peers)
                  (index_at (take perm.replication perm.peers) g.me)
                ≡ x' =
              cc in
            same)
          (next-IsPlan g x r perm (index_at (take perm.replication perm.peers) g.me) placed refl v)
