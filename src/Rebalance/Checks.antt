-- ===== src/Rebalance/Checks.antt =====
-- A tick that moves one block to another server, and an instance of its law.
use torus.Base.{
  ℕ, zero, suc, ◌≡◌, ◌≢◌, refl, sym, ap, ◌∙◌, Bool, true, false, List, [], ◌∷◌, map, Option, none,
  some, length, length-map, get_elem?, arith, ◌==◌, ==_self, if◌then◌else◌, Bytes, ok,
}
use torus.Refs.{BlockRef, block_ref_eq}
use torus.Refs.Fields.{block_ref_eq_iff, block_ref_eq_refl}
use torus.RefMap.{RefMap, lookup-erase}
use torus.Peers.{Uuid, index_at, index_from}
use torus.Store.Temp
use torus.Store.Temp.{TempBlockStore}
use torus.Store.Temp.Reads.{temp_store}
use torus.Rebalance.{
  CheckAndSender, Guide, scan, plan_block, want_from, sent, send_data, send_list, answered,
  send_all, delete_marked, tick,
}
use torus.Rebalance.Sends.{IsHonest}
use torus.Rebalance.Moves.{IsMoved, tick-IsMoved}

-- The blocks that the peers have
abbrev World : Type 0
World = Uuid → BlockRef → Bool

abbrev with_block : World → Uuid → BlockRef → World
with_block w p r q s = if q == p then (if block_ref_eq r s then true else w q s) else w q s

abbrev peers : CheckAndSender World
peers = record {
  check = λ w p rs. (ok (map (λ r. w p r) rs), w);
  put_block = λ w p r d. (ok tt, with_block w p r);
}

abbrev Holds : World → Uuid → BlockRef → Type 0
Holds w p r = w p r ≡ true

answers :
    (w : BlockRef → Bool) (rs : List BlockRef) (i : ℕ) (r : BlockRef)
    → get_elem? rs i ≡ some r
    → get_elem? (map w rs) i ≡ some true
    → w r ≡ true
answers w [] i r at_r said = absurd cc
answers w (x ∷ rs) zero r at_r said =
    let same : x ≡ r = cc in sym (ap w same) ∙ (let e : w x ≡ true = cc in e)
answers w (x ∷ rs) (suc i) r at_r said = answers w rs i r at_r said

answer_size :
    (w : BlockRef → Bool) (rs : List BlockRef) (oks : List Bool)
    → ok (map w rs) ≡ ok oks
    → length oks ≡ length rs
answer_size w rs oks e =
    let same : map w rs ≡ oks = cc in sym (ap (λ (l : List Bool). length l) same) ∙ length-map rs w

answer_true :
    (w : BlockRef → Bool) (rs : List BlockRef) (oks : List Bool) (i : ℕ) (r : BlockRef)
    → ok (map w rs) ≡ ok oks
    → get_elem? rs i ≡ some r
    → get_elem? oks i ≡ some true
    → w r ≡ true
answer_true w rs oks i r e at_r said =
    let same : map w rs ≡ oks = cc in
    answers w rs i r at_r (ap (λ (l : List Bool). get_elem? l i) same ∙ said)

peers-IsHonest : IsHonest peers Holds
peers-IsHonest = record {
  check_size = λ w p rs oks e. answer_size (w p) rs oks e;
  check_holds = λ w p rs oks i r e at_r said. answer_true (w p) rs oks i r e at_r said;
  check_keeps = λ w p q rs r b. b;
  put_holds = λ w p r d e. rw (==_self p, block_ref_eq_refl r) refl;
  put_keeps = λ w p q r s d b. keeps (q == p) (block_ref_eq r s) (w q s) b;
}
  where
    keeps : (a b c : Bool) → c ≡ true → (if a then (if b then true else c) else c) ≡ true
    keeps true true c e = refl
    keeps true false c e = e
    keeps false b c e = e

abbrev moving : BlockRef
moving = record { inode_ref = record { volume = 1; inode = 2 }; index = 1 }

abbrev one_block : TempBlockStore
one_block = record { store = some ((moving, 1 ∷ 2 ∷ []) ∷ []); n_blocks = 4; block_size = 2 }

abbrev no_block : TempBlockStore
no_block = record { store = some []; n_blocks = 4; block_size = 2 }

abbrev nobody : World
nobody p r = false

-- The ring wants each block on server 5 alone; this is server 7.
abbrev guide : Guide
guide = record {
  is_dead = λ r. false;
  get_peers = λ r. ok (record { replication = 1; peers = 5 ∷ [] });
  me = 7;
}

delete_other :
    (t : TempBlockStore) (r q : BlockRef)
    → r ≢ q
    → Temp.get_block (Temp.delete_block t r).1 q ≡ Temp.get_block t q
unfolding Temp.get_block Temp.delete_block
delete_other t r q ne = go t.store t.n_blocks t.block_size
  where
    go :
        (o : Option (RefMap Bytes)) (n b : ℕ)
        → let t' : TempBlockStore = record { store = o; n_blocks = n; block_size = b } in
          Temp.get_block (Temp.delete_block t' r).1 q ≡ Temp.get_block t' q
    go none n b = refl
    go (some m) n b =
        let other : block_ref_eq r q ≡ false = ground (arith, block_ref_eq_iff r q) in
        rw (lookup-erase r q m, other, Temp.get_block) refl

ticked :
    tick temp_store peers guide one_block nobody (moving ∷ [])
    ≡ ok ((1, true), [], no_block, with_block nobody 5 moving)
unfolding tick scan plan_block want_from index_at index_from send_all answered send_list send_data
    sent delete_marked block_ref_eq Temp.get_block Temp.delete_block
ticked = refl

there : Temp.get_block one_block moving ≡ ok (1 ∷ 2 ∷ [])
unfolding Temp.get_block block_ref_eq
there = refl

gone : Temp.get_block no_block moving ≢ ok (1 ∷ 2 ∷ [])
unfolding Temp.get_block
gone e = cc

tick-IsMoved_example :
    IsMoved temp_store peers delete_other Holds peers-IsHonest guide moving
      (with_block nobody 5 moving)
tick-IsMoved_example =
    tick-IsMoved temp_store peers delete_other Holds peers-IsHonest guide one_block nobody
      (moving ∷ []) ((1, true), [], no_block, with_block nobody 5 moving) moving (1 ∷ 2 ∷ []) ticked
      there refl gone

-- A ring that names nobody has every block deleted that the collector leaves.
abbrev empty_ring : Guide
empty_ring = record {
  is_dead = λ r. false;
  get_peers = λ r. ok (record { replication = 0; peers = [] });
  me = 7;
}

empty_ring_deletes :
    tick temp_store peers empty_ring one_block nobody (moving ∷ [])
    ≡ ok ((0, true), [], no_block, nobody)
unfolding tick scan plan_block want_from index_at index_from send_all delete_marked block_ref_eq
    Temp.delete_block
empty_ring_deletes = refl
