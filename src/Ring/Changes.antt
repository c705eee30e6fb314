-- ===== src/Ring/Changes.antt =====
-- Changing the members of a ring: AddPeers, RemovePeers and ChangeReplication.
use torus.Base.{
  ℕ, ◌+◌, ◌≡◌, ◌≢◌, refl, sym, ap, ◌∙◌, true, false, not, ◌&&◌, ◌||◌, arith, inl, inr, ◌⊎◌, length,
  ◌==◌, Bool-cases, bytes_eq, bytes_eq_refl, ok, err, panic, Outcome, Error, ◌>>=◌,
}
use torus.Peers.{
  Uuid, PeerList, PeerInfoList, Weights, peer_list, has, info_union, info_and_not, get_weights,
}
use torus.Peers.Infos.{peer_list-info_and_not, length-peer_list, length-and_not_same}
use torus.Ring.Members.{has-info_union, has-info_and_not, nobody_new, somebody_new, somebody_gone}
use torus.Ring.Types.{HashRing, ModRing, KetamaRing}
use torus.Ring.Mod
use torus.Ring.Ketama
use torus.Ring.Ketama.{build}

-- AddPeers on a mod ring either refuses, and then every listed peer is a member already; or it
-- gives the next version with the same replication, whose members are the old and the new ones, and
-- then some listed peer was no member.
pub add_peers_mod :
    (m : ModRing) (peers : PeerInfoList)
    → ((Mod.add_peers m peers ≡ err Error.exists_already)
        × ((u : Uuid) → has (peer_list peers) u ≡ true → has (peer_list m.peers) u ≡ true))
      ⊎ ((m' : ModRing) × (Mod.add_peers m peers ≡ ok m')
          × (m'.version ≡ m.version + 1)
          × (m'.rep ≡ m.rep)
          × ((u : Uuid)
              → has (peer_list m'.peers) u ≡ (has (peer_list m.peers) u || has (peer_list peers) u))
          × ((u : Uuid) × (has (peer_list peers) u ≡ true) × (has (peer_list m.peers) u ≡ false)))
unfolding Mod.add_peers
add_peers_mod m peers =
    elim (Bool-cases (bytes_eq (peer_list (info_union m.peers peers)) (peer_list m.peers))) [
      | inl same ↦ inl (rw same, λ u h. nobody_new m.peers peers u same h)
      | inr more ↦ inr (
        record { version = m.version + 1; rep = m.rep; peers = info_union m.peers peers },
        rw more,
        refl,
        refl,
        λ u. has-info_union m.peers peers u,
        somebody_new m.peers peers more,
      )
    ]

-- RemovePeers on a mod ring either refuses, and then no member is listed; or it gives the next
-- version with the same replication, whose members are the old ones that are not listed, and then
-- some member was listed.
pub remove_peers_mod :
    (m : ModRing) (pl : PeerList)
    → ((Mod.remove_peers m pl ≡ err Error.not_exist)
        × ((u : Uuid) → has (peer_list m.peers) u ≡ true → has pl u ≡ false))
      ⊎ ((m' : ModRing) × (Mod.remove_peers m pl ≡ ok m')
          × (m'.version ≡ m.version + 1)
          × (m'.rep ≡ m.rep)
          × ((u : Uuid)
              → has (peer_list m'.peers) u ≡ (has (peer_list m.peers) u && not (has pl u)))
          × ((u : Uuid) × (has (peer_list m.peers) u ≡ true) × (has pl u ≡ true)))
unfolding Mod.remove_peers
remove_peers_mod m pl = elim (Bool-cases (length (info_and_not m.peers pl) == length m.peers)) [
  | inl same ↦ inl (
    rw same,
    λ u h.
        length-and_not_same (peer_list m.peers) pl u
          (ap length (sym (peer_list-info_and_not m.peers pl))
            ∙ length-peer_list (info_and_not m.peers pl)
            ∙ ground arith
            ∙ sym (length-peer_list m.peers))
          h,
  )
  | inr fewer ↦ inr (
    record { version = m.version + 1; rep = m.rep; peers = info_and_not m.peers pl },
    rw fewer,
    refl,
    refl,
    λ u. has-info_and_not m.peers pl u,
    somebody_gone m.peers pl fewer,
  )
]

module _ (new_with_weights : Weights → HashRing) where
  build_lem :
      (version rep : ℕ) (peers : PeerInfoList) {k : KetamaRing}
      → build new_with_weights version rep peers ≡ ok k
      → (k.version ≡ version) × (k.rep ≡ rep) × (k.peers ≡ peers)
  unfolding build
  build_lem version rep peers {k} e = go (get_weights peers) e
    where
      go :
          (w : Outcome Weights)
          → (w >>= λ ws.
              ok (record {
                version = version;
                rep = rep;
                peers = peers;
                ring = new_with_weights ws;
              }))
            ≡ ok k
          → (k.version ≡ version) × (k.rep ≡ rep) × (k.peers ≡ peers)
      go (ok ws) h = ground (arith, h)
      go (err x) h = cc
      go panic h = cc

  -- A ketama ring that AddPeers gives is the next version with the same replication, has the old
  -- and the new members, and differs in its list of members.
  pub add_peers_ketama :
      (k k' : KetamaRing) (peers : PeerInfoList)
      → Ketama.add_peers new_with_weights k peers ≡ ok k'
      → (k'.version ≡ k.version + 1)
        × (k'.rep ≡ k.rep)
        × ((u : Uuid)
            → has (peer_list k'.peers) u ≡ (has (peer_list k.peers) u || has (peer_list peers) u))
        × (peer_list k'.peers ≢ peer_list k.peers)
  unfolding Ketama.add_peers
  add_peers_ketama k k' peers e =
      elim (Bool-cases (bytes_eq (peer_list (info_union k.peers peers)) (peer_list k.peers))) [
        | inl same ↦ let bad : err Error.exists_already ≡ ok k' = rw same at e in cc
        | inr more ↦
            let built = build_lem (k.version + 1) k.rep (info_union k.peers peers) (rw more at e) in
            (
              built.0,
              built.1,
              λ u. ap (λ l. has (peer_list l) u) built.2 ∙ has-info_union k.peers peers u,
              λ unchanged.
                  let same : bytes_eq (peer_list (info_union k.peers peers)) (peer_list k.peers)
                      ≡ true =
                    rw (sym (ap peer_list built.2) ∙ unchanged)
                      (bytes_eq_refl (peer_list k.peers)) in
                  cc,
            )
      ]

  -- A ketama ring that RemovePeers gives is the next version with the same replication, the members
  -- that are not listed, and another number of members.
  pub remove_peers_ketama :
      (k k' : KetamaRing) (pl : PeerList)
      → Ketama.remove_peers new_with_weights k pl ≡ ok k'
      → (k'.version ≡ k.version + 1)
        × (k'.rep ≡ k.rep)
        × ((u : Uuid) → has (peer_list k'.peers) u ≡ (has (peer_list k.peers) u && not (has pl u)))
        × (length k'.peers ≢ length k.peers)
  unfolding Ketama.remove_peers
  remove_peers_ketama k k' pl e =
      elim (Bool-cases (length (info_and_not k.peers pl) == length (peer_list k.peers))) [
        | inl same ↦ let bad : err Error.not_exist ≡ ok k' = rw same at e in cc
        | inr fewer ↦
            let built = build_lem (k.version + 1) k.rep (info_and_not k.peers pl) (rw fewer at e) in
            (
              built.0,
              built.1,
              λ u. ap (λ l. has (peer_list l) u) built.2 ∙ has-info_and_not k.peers pl u,
              λ unchanged.
                  let size : length k'.peers ≡ length (info_and_not k.peers pl) =
                    ap length built.2 in
                  ground (arith, size, unchanged, length-peer_list k.peers, fewer),
            )
      ]
