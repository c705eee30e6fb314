-- ===== src/Rebalance/Moves.antt =====
-- A whole tick, distributor/rebalance/tick.go: what it takes from the local store.
use torus.Base.{
  ℕ, ◌≡◌, ◌≢◌, refl, sym, ap, subst, ◌∙◌, Bool, true, false, List, [], ◌∷◌, Option, none, some,
  take, inl, inr, get_elem?, Bool-cases, if◌then◌else◌, Bytes, Outcome, ok, err, panic,
}
use torus.Refs.{BlockRef}
use torus.RefMap.{RefMap, lookup}
use torus.Peers.{Uuid, PeerPermutation, index_at}
use torus.Store.Interface.{BlockStore}
use torus.Rebalance.{
  CheckAndSender, Guide, Plan, Sent, max_iters, scan, send_all, is_marked, keys, delete_marked,
  tick,
}
use torus.Rebalance.Sends.{IsHonest, Later}
use torus.Rebalance.Lists.{bind_ok, send_all-Later, send_all-safe}
use torus.Rebalance.Plans.{IsPlan}
use torus.Rebalance.Scans.{no_plan, scan-IsPlan, scan-dead}

-- A mark, and the entry of the map
marked_true : (m : RefMap Bool) (r : BlockRef) → lookup r m ≢ some true → is_marked m r ≡ false
marked_true m r ne = by_entry (lookup r m) refl
  where
    by_entry : (o : Option Bool) → lookup r m ≡ o → (elim o [ none ↦ false | some b ↦ b ]) ≡ false
    by_entry none e = refl
    by_entry (some true) e = absurd (ne e)
    by_entry (some false) e = refl

marked_some : (m : RefMap Bool) (r : BlockRef) → is_marked m r ≡ true → lookup r m ≡ some true
marked_some m r on = by_entry (lookup r m) on
  where
    by_entry : (o : Option Bool) → (elim o [ none ↦ false | some b ↦ b ]) ≡ true → o ≡ some true
    by_entry none e = absurd cc
    by_entry (some b) e = ap some e

abbrev after : {S : Type 0} → Outcome (Unit {0}) → Outcome S → Outcome S
after a rest = elim a [ ok _ ↦ rest | err e ↦ rest | panic ↦ panic ]

after_ok :
    {S : Type 0} {s : S} (a : Outcome (Unit {0})) (rest : Outcome S)
    → after a rest ≡ ok s
    → rest ≡ ok s
after_ok (ok _) rest e = e
after_ok (err f) rest e = e
after_ok panic rest e = absurd cc

module _ {S W : Type 0} (st : BlockStore S) (cs : CheckAndSender W)
    (delete_other : (s : S) (r q : BlockRef)
      → r ≢ q
      → st.get_block (st.delete_block s r).1 q ≡ st.get_block s q) where
  -- What is not marked is as before.
  unmarked-same :
      (s s' : S) (m : RefMap Bool) (ks : List BlockRef) (r : BlockRef)
      → delete_marked st cs s m ks ≡ ok s'
      → is_marked m r ≡ false
      → st.get_block s' r ≡ st.get_block s r
  unfolding delete_marked
  unmarked-same s s' m [] r e off = let same : s ≡ s' = cc in sym (ap (λ z. st.get_block z r) same)
  unmarked-same s s' m (k ∷ ks) r e off =
      by_mark (is_marked m k) refl e (λ e'. unmarked-same s s' m ks r e' off)
        (λ e'. unmarked-same (st.delete_block s k).1 s' m ks r e' off)
    where
      by_mark :
          (b : Bool)
          → is_marked m k ≡ b
          → (if b
              then after (st.delete_block s k).0 (delete_marked st cs (st.delete_block s k).1 m ks)
              else delete_marked st cs s m ks)
            ≡ ok s'
          → (delete_marked st cs s m ks ≡ ok s' → st.get_block s' r ≡ st.get_block s r)
          → (delete_marked st cs (st.delete_block s k).1 m ks ≡ ok s'
              → st.get_block s' r ≡ st.get_block (st.delete_block s k).1 r)
          → st.get_block s' r ≡ st.get_block s r
      by_mark false at_k e keep drop_ = keep e
      by_mark true at_k e keep drop_ =
          drop_ (after_ok (st.delete_block s k).0 _ e)
          ∙ delete_other s k r (λ same.
            let wrong : true ≡ false = sym at_k ∙ (ap (is_marked m) same ∙ off) in absurd cc)

  module _ (Holds : W → Uuid → BlockRef → Type 0) (h : IsHonest cs Holds) where
    -- The ring wants the block elsewhere, and each peer that it names has it.
    pub record IsMoved (g : Guide) (r : BlockRef) (w : W) : Type 0 where
      perm : PeerPermutation
      placed : g.get_peers r ≡ ok perm
      absent : index_at (take perm.replication perm.peers) g.me ≡ none
      held :
          (k : ℕ) (p : Uuid) → get_elem? (take perm.replication perm.peers) k ≡ some p → Holds w p r

    -- A block that is marked after the sends
    marked-IsMoved :
        (g : Guide) (s : S) (w : W) (x : Plan) (y : Sent W) (r : BlockRef) (d : Bytes)
        → IsPlan g x
        → send_all st cs s (record { world = w; to_delete = x.to_delete; n = 0 }) x.wanted ≡ ok y
        → st.get_block s r ≡ ok d
        → lookup r y.to_delete ≡ some true
        → IsMoved g r y.world
    marked-IsMoved g s w x y r d v e got a =
        let x0 : Sent W = record { world = w; to_delete = x.to_delete; n = 0 } in
        let later : Later st cs Holds h x0 y = send_all-Later st cs Holds h s x0 y x.wanted e in
        let place = v r (later.fewer r a) in
        record {
          perm = place.perm;
          placed = place.placed;
          absent = place.absent;
          held = λ k p at_p.
              let (rs, listed, i, at_r) = place.wanted k p at_p in
              send_all-safe st cs Holds h s x0 y x.wanted p rs i r e listed at_r (d, got) a;
        }

    -- Over a store whose deletes leave other blocks alone, and peers that answer a check
    -- truthfully, store what a put has stored and lose nothing: when a tick returns and a block
    -- that could be read before, and that the collector does not call dead, no longer reads the
    -- same, then the ring wants it on other peers only, and each peer that the ring names has it.
    pub tick-IsMoved :
        (g : Guide) (s : S) (w : W) (refs : List BlockRef)
        (out : (ℕ × Bool) × List BlockRef × S × W) (r : BlockRef) (d : Bytes)
        → tick st cs g s w refs ≡ ok out
        → st.get_block s r ≡ ok d
        → g.is_dead r ≡ false
        → st.get_block out.2 r ≢ ok d
        → IsMoved g r out.3
    unfolding tick
    tick-IsMoved g s w refs out r d e got alive gone =
        let (t, scanned, e1) = bind_ok (scan g max_iters refs no_plan) _ out e in
        let (y, sent_, e2) =
          bind_ok
            (send_all st cs s (record { world = w; to_delete = t.0.to_delete; n = 0 }) t.0.wanted) _
            out e1 in
        let (s1, first, e3) =
          bind_ok (delete_marked st cs s y.to_delete (keys y.to_delete)) _ out e2 in
        let (s2, second, e4) = bind_ok (delete_marked st cs s1 t.0.dead (keys t.0.dead)) _ out e3 in
        let store : s2 ≡ out.2 =
          let same : ((y.n, t.2), t.1, s2, y.world) ≡ out = cc in
          ap (λ (o : (ℕ × Bool) × List BlockRef × S × W). o.2) same in
        let world : y.world ≡ out.3 =
          let same : ((y.n, t.2), t.1, s2, y.world) ≡ out = cc in
          ap (λ (o : (ℕ × Bool) × List BlockRef × S × W). o.3) same in
        let not_buried : is_marked t.0.dead r ≡ false = marked_true t.0.dead r (λ a.
          let wrong : true ≡ false = sym (scan-dead g max_iters refs t scanned r a) ∙ alive in
          cc) in
        let after_dead : st.get_block out.2 r ≡ st.get_block s1 r =
          ap (λ z. st.get_block z r) (sym store)
          ∙ unmarked-same s1 s2 t.0.dead (keys t.0.dead) r second not_buried in
        elim (Bool-cases (is_marked y.to_delete r)) [
          | inl on ↦ subst (IsMoved g r) world (
              marked-IsMoved g s w t.0 y r d (scan-IsPlan g max_iters refs t scanned) sent_ got
                (marked_some y.to_delete r on))
          | inr off ↦ absurd (
              gone (
                after_dead ∙ (unmarked-same s s1 y.to_delete (keys y.to_delete) r first off ∙ got)))
        ]
