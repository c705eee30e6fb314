-- ===== src/Ring/Targets.antt =====
-- Where a ring places a block: the answer of GetPeers for every kind of ring.
use torus.Base.{
  ℕ, ◌-◌, ◌%◌, ◌≤◌, ◌≡◌, refl, sym, ap, ◌∙◌, Bool, true, false, not, ◌||◌, [], ◌∷◌, ◌++◌, arith,
  inl, inr, length, take, drop, replicate, length-append, length-take, length-drop,
  length-replicate, take-append-drop, splice, splice_front, splice_behind, drop_all, append-nil,
  take-append_left, ltb, ◌==◌, if◌then◌else◌, Bool-cases, Bytes, ok, err, panic, Outcome, Error,
}
use torus.Refs.{BlockRef, to_bytes}
use torus.Peers.{Uuid, PeerList, PeerPermutation, PeerInfoList, peer_list, has, union, keep}
use torus.Peers.Sets.{
  IsDistinct, has_of_sets, union-IsDistinct, swap_parts-IsDistinct, has-append,
  append_one-IsDistinct, elem, has-elem,
}
use torus.Peers.Infos.{length-peer_list, length-union_ge}
use torus.Ring.Types.{Ring, empty, single, mod_ring, ketama, union_ring, ModRing, KetamaRing}
use torus.Ring.Mod
use torus.Ring.Mod.{permute_from}
use torus.Ring.Ketama
use torus.Ring.Ketama.{among, permutation_of, append_missing, peers_of_nodes}
use torus.Ring.Calls.{get_peers, members, union_permutation}

-- The two copies turn the list round by `sum`.
pub permute_from_lem :
    (sum : ℕ) (pl : PeerList) → sum ≤ length pl → permute_from sum pl ≡ drop sum pl ++ take sum pl
unfolding permute_from
permute_from_lem sum pl h =
    let n : ℕ = length pl in
    let front : length (drop sum pl) ≡ n - sum = length-drop sum pl in
    let back : length (take sum pl) ≡ sum = omega (arith, length-take sum pl) in
    let blank : length (replicate n 0) ≡ n = length-replicate {A = ℕ} n 0 in
    let rest : PeerList = drop (length (drop sum pl)) (replicate n 0) in
    let left : length rest ≡ sum =
      omega (arith, length-drop {A = ℕ} (length (drop sum pl)) (replicate n 0), front, blank) in
    let first : splice 0 (drop sum pl) (replicate n 0) ≡ drop sum pl ++ rest =
      splice_front (drop sum pl) (replicate n 0) (omega (arith, front, blank)) in
    ap (splice (n - sum) (take sum pl)) first
    ∙ ap (λ k. splice k (take sum pl) (drop sum pl ++ rest)) (sym front)
    ∙ splice_behind (drop sum pl) (take sum pl) rest
    ∙ ap (λ l. drop sum pl ++ l)
        (splice_front (take sum pl) rest (omega (arith, back, left))
          ∙ ap (λ l. take sum pl ++ l)
              (drop_all (length (take sum pl)) rest (omega (arith, back, left)))
          ∙ append-nil (take sum pl))

-- The answer is usable: the replicas are among the peers named, no peer is named twice, and every
-- peer named is a member.
pub record IsPlacement (known : PeerList) (p : PeerPermutation) : Type 0 where
  pub enough : p.replication ≤ length p.peers
  pub distinct : IsDistinct p.peers
  pub inside : (u : Uuid) → has p.peers u ≡ true → has known u ≡ true

-- What GetPeers needs of a ring: no member twice, and for a ketama ring that the hash ring gives
-- distinct members, as the hashring package documents.
abbrev pub IsProper : Ring → BlockRef → Type 0
IsProper (empty v) key = Unit
IsProper (single v p) key = Unit
IsProper (mod_ring m) key = IsDistinct (peer_list m.peers)
IsProper (ketama k) key =
    let nodes : PeerList = (k.ring (to_bytes key) (length k.peers)).0 in
    IsDistinct nodes × ((u : Uuid) → has nodes u ≡ true → has (peer_list k.peers) u ≡ true)
IsProper (union_ring old new) key = IsProper old key × IsProper new key

mod-IsPlacement :
    (checksum : Bytes → ℕ) (m : ModRing) (key : BlockRef) {p : PeerPermutation}
    → IsDistinct (peer_list m.peers)
    → Mod.get_peers checksum m key ≡ ok p
    → IsPlacement (peer_list m.peers) p
unfolding Mod.get_peers
mod-IsPlacement checksum m key {p} h e =
    let pl : PeerList = peer_list m.peers in
    let sum : ℕ = checksum (to_bytes key) % length m.peers in
    let same : length pl ≡ length m.peers = length-peer_list m.peers in
    elim (Bool-cases (length pl == 0)) [
      | inl no_peers ↦ let bad : err (Error.other 0) ≡ ok p = rw no_peers at e in cc
      | inr some_peers ↦
          let rotated : permute_from sum pl ≡ drop sum pl ++ take sum pl =
            permute_from_lem sum pl (ground arith) in
          let size : length (drop sum pl ++ take sum pl) ≡ length pl =
            length-append (drop sum pl) (take sum pl)
            ∙ omega (arith, length-drop sum pl, length-take sum pl) in
          let whole : take sum pl ++ drop sum pl ≡ pl = take-append-drop sum pl in
          let parts : IsDistinct (take sum pl ++ drop sum pl) = rw whole h in
          let answer : p ≡ record {
            replication = if ltb (length m.peers) m.rep then length m.peers else m.rep;
            peers = permute_from sum pl;
          } =
            ground (arith, e, same) in
          rw (answer, rotated)
            (record {
              enough = rw size (ground (arith, same));
              distinct = swap_parts-IsDistinct (take sum pl) (drop sum pl) parts;
              inside = λ u at.
                  let there : has (take sum pl ++ drop sum pl) u ≡ true = ground (
                    arith,
                    has-append (drop sum pl) (take sum pl) u,
                    has-append (take sum pl) (drop sum pl) u,
                  ) in
                  rw whole at there;
            })
    ]

among-elem : (s : PeerList) (u : Uuid) → among s u ≡ elem s u
unfolding among
among-elem [] u = refl
among-elem (y ∷ s) u = ap (λ r. if y == u then true else r) (among-elem s u)

-- One round of the loop that appends what is missing.
abbrev add_missing : PeerList → Uuid → PeerList
add_missing s u = if among s u then s else s ++ (u ∷ [])

add_missing_lem :
    (s : PeerList) (u w : Uuid)
    → IsDistinct s
    → IsDistinct (add_missing s u) × (has (add_missing s u) w ≡ (has s w || u == w))
add_missing_lem s u w h = elim (Bool-cases (among s u)) [
  | inl there ↦ rw there (h, ground (arith, known there, same_uuid))
  | inr missing ↦ rw missing (
    append_one-IsDistinct s u h (sym (among-elem s u) ∙ missing),
    has-append s (u ∷ []) w ∙ ap (λ b. has s w || b) (has-elem (u ∷ []) w ∙ last),
  )
]
  where
    known : among s u ≡ true → has s u ≡ true
    known there = has-elem s u ∙ sym (among-elem s u) ∙ there

    same_uuid : (u == w) ≡ true → has s u ≡ has s w
    same_uuid e = ap (has s) (ground arith)

    last : elem (u ∷ []) w ≡ (u == w)
    last = ground arith

append_missing_lem :
    (ps : PeerInfoList) (s : PeerList)
    → IsDistinct s
    → IsDistinct (append_missing ps s)
      × ((u : Uuid) → has (append_missing ps s) u ≡ true → (has s u || has (peer_list ps) u) ≡ true)
unfolding append_missing peer_list
append_missing_lem [] s h = (h, λ u e. ground arith)
append_missing_lem (x ∷ ps) s h =
    let step = add_missing_lem s x.uuid x.uuid h in
    let rest = append_missing_lem ps (add_missing s x.uuid) step.0 in
    (
      rest.0,
      λ u e. ground (
        arith,
        rest.1 u e,
        add_missing_lem s x.uuid u h,
        has-elem (x.uuid ∷ peer_list ps) u,
        has-elem (peer_list ps) u,
      ),
    )

permutation_of_lem :
    (k : KetamaRing) (s : PeerList) {p : PeerPermutation}
    → permutation_of k s ≡ ok p
    → (p.peers ≡ s) × (p.replication ≤ length s)
unfolding permutation_of
permutation_of_lem k s e = ground (arith, e)

IsPlacement-of :
    (k : KetamaRing) (s : PeerList) {p : PeerPermutation}
    → IsDistinct s
    → ((u : Uuid) → has s u ≡ true → has (peer_list k.peers) u ≡ true)
    → permutation_of k s ≡ ok p
    → IsPlacement (peer_list k.peers) p
IsPlacement-of k s {p} h inside e =
    let got = permutation_of_lem k s e in
    record {
      enough = rw got.0 got.1;
      distinct = rw got.0 h;
      inside = λ u at. inside u (rw got.0 at at);
    }

nodes-IsPlacement :
    (k : KetamaRing) (s : PeerList) (enough : Bool) {p : PeerPermutation}
    → IsDistinct s
    → ((u : Uuid) → has s u ≡ true → has (peer_list k.peers) u ≡ true)
    → peers_of_nodes k (s, enough) ≡ ok p
    → IsPlacement (peer_list k.peers) p
unfolding peers_of_nodes
nodes-IsPlacement k s true h inside e = IsPlacement-of k s h inside e
nodes-IsPlacement k s false {p} h inside e = elim (Bool-cases (length s == 0)) [
  | inl none_found ↦ let bad : err (Error.other 0) ≡ ok p = rw none_found at e in cc
  | inr some_found ↦
      let more = append_missing_lem k.peers s h in
      IsPlacement-of k (append_missing k.peers s) more.0
        (λ u at. ground (arith, more.1 u at, inside u)) (rw some_found at e)
]

ketama-IsPlacement :
    (k : KetamaRing) (key : BlockRef) {p : PeerPermutation}
    → IsProper (ketama k) key
    → Ketama.get_peers k key ≡ ok p
    → IsPlacement (peer_list k.peers) p
unfolding Ketama.get_peers
ketama-IsPlacement k key h e =
    let answer : PeerList × Bool = k.ring (to_bytes key) (length k.peers) in
    nodes-IsPlacement k answer.0 answer.1 h.0 h.1 e

-- The answer of a union ring, taken apart.
union_answer :
    (of_new of_old : Outcome PeerPermutation) {p : PeerPermutation}
    → union_permutation of_new of_old ≡ ok p
    → (n : PeerPermutation) × (o : PeerPermutation) × (of_new ≡ ok n)
      × (of_old ≡ ok o)
      × (p ≡ record { replication = n.replication; peers = union o.peers n.peers })
unfolding union_permutation
union_answer (ok n) (ok o) e = (n, o, refl, refl, ground (arith, e))
union_answer (ok n) (err x) e = cc
union_answer (ok n) panic e = cc
union_answer (err x) of_old e = cc
union_answer panic of_old e = cc

-- For every kind of ring without repeated members (and a hash ring that gives distinct members):
-- when GetPeers answers, there are at least as many peers as the replication asks for, no peer
-- twice, and only members of the ring.
pub get_peers-IsPlacement :
    (checksum : Bytes → ℕ) (r : Ring) (key : BlockRef) {p : PeerPermutation}
    → IsProper r key
    → get_peers checksum r key ≡ ok p
    → IsPlacement (members r) p
unfolding get_peers members
get_peers-IsPlacement checksum (empty v) key {p} h e =
    let at : record { replication = 0; peers = [] } ≡ p = ground (arith, e) in
    rw (← at) (record { enough = omega arith; distinct = tt; inside = λ u i. i })
get_peers-IsPlacement checksum (single v q) key {p} h e =
    let at : record { replication = 1; peers = q.uuid ∷ [] } ≡ p = ground (arith, e) in
    rw (← at) (record { enough = omega arith; distinct = (refl, tt); inside = λ u i. i })
get_peers-IsPlacement checksum (mod_ring m) key h e = mod-IsPlacement checksum m key h e
get_peers-IsPlacement checksum (ketama k) key h e = ketama-IsPlacement k key h e
get_peers-IsPlacement checksum (union_ring old new) key {p} h e =
    let (n, o, en, eo, at) =
      union_answer (get_peers checksum new key) (get_peers checksum old key) e in
    let pn = get_peers-IsPlacement checksum new key h.1 en in
    let po = get_peers-IsPlacement checksum old key h.0 eo in
    rw at (record {
      enough = omega (arith, pn.enough, length-union_ge o.peers n.peers pn.distinct);
      distinct = union-IsDistinct o.peers n.peers po.distinct pn.distinct;
      inside = λ u i. ground (
        arith,
        has_of_sets o.peers n.peers u,
        has_of_sets (members new) (members old) u,
        pn.inside u,
        po.inside u,
      );
    })

-- When GetPeers of a union ring answers, both rings answered; the replication is the new ring's,
-- the old ring's peers come first in their order, and the peers are those of either ring.
pub union_names_both :
    (checksum : Bytes → ℕ) (old new : Ring) (key : BlockRef) {p : PeerPermutation}
    → get_peers checksum (union_ring old new) key ≡ ok p
    → (n : PeerPermutation) × (o : PeerPermutation) × (get_peers checksum new key ≡ ok n)
      × (get_peers checksum old key ≡ ok o)
      × (p.replication ≡ n.replication)
      × (take (length o.peers) p.peers ≡ o.peers)
      × ((u : Uuid) → has p.peers u ≡ (has o.peers u || has n.peers u))
unfolding get_peers
union_names_both checksum old new key {p} e =
    let (n, o, en, eo, at) =
      union_answer (get_peers checksum new key) (get_peers checksum old key) e in
    (
      n,
      o,
      en,
      eo,
      ap (λ q. q.replication) at,
      ap (λ q. take (length o.peers) q.peers) at
          ∙ unfold union in take-append_left o.peers (keep (λ x. not (has o.peers x)) n.peers),
      λ u. ap (λ q. has q.peers u) at ∙ (has_of_sets o.peers n.peers u).1,
    )
