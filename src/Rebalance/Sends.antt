-- ===== src/Rebalance/Sends.antt =====
-- The sends of a tick, distributor/rebalance/tick.go: a block stays marked for deletion only if each peer that is
-- to have it has it.
use torus.Base.{
  ℕ, zero, suc, ◌+◌, ◌≡◌, ◌≢◌, refl, sym, subst, ◌∙◌, Bool, true, false, List, [], ◌∷◌, some,
  length, get_elem?, if◌then◌else◌, Bytes, Outcome, ok, err, panic,
}
use torus.Refs.{BlockRef, block_ref_eq}
use torus.RefMap.{RefMap, lookup, insert, lookup-insert, lookup-insert_self}
use torus.Peers.{Uuid}
use torus.Store.Interface.{BlockStore}
use torus.Rebalance.{CheckAndSender, Sent, refuse, sent}

-- What is relied on of the other peers: `Holds w p r` says that the peer has the block. A peer that
-- answers a check tells the truth about each block; a put that succeeds stores the block; and
-- neither takes a block away.
pub record IsHonest {W : Type 0} (cs : CheckAndSender W) (Holds : W → Uuid → BlockRef → Type 0)
    : Type 0 where
  pub check_size :
      (w : W) (p : Uuid) (rs : List BlockRef) (oks : List Bool)
      → (cs.check w p rs).0 ≡ ok oks
      → length oks ≡ length rs
  pub check_holds :
      (w : W) (p : Uuid) (rs : List BlockRef) (oks : List Bool) (i : ℕ) (r : BlockRef)
      → (cs.check w p rs).0 ≡ ok oks
      → get_elem? rs i ≡ some r
      → get_elem? oks i ≡ some true
      → Holds (cs.check w p rs).1 p r
  pub check_keeps :
      (w : W) (p q : Uuid) (rs : List BlockRef) (r : BlockRef)
      → Holds w q r
      → Holds (cs.check w p rs).1 q r
  pub put_holds :
      (w : W) (p : Uuid) (r : BlockRef) (d : Bytes)
      → (cs.put_block w p r d).0 ≡ ok tt
      → Holds (cs.put_block w p r d).1 p r
  pub put_keeps :
      (w : W) (p q : Uuid) (r r' : BlockRef) (d : Bytes)
      → Holds w q r'
      → Holds (cs.put_block w p r d).1 q r'

module _ {S W : Type 0} (st : BlockStore S) (cs : CheckAndSender W)
    (Holds : W → Uuid → BlockRef → Type 0) (h : IsHonest cs Holds) where
  -- Sends take no block away from a peer, and mark none for deletion.
  pub record Later (x x' : Sent W) : Type 0 where
    pub keeps : (q : Uuid) (r : BlockRef) → Holds x.world q r → Holds x'.world q r
    pub fewer :
        (r : BlockRef) → lookup r x'.to_delete ≡ some true → lookup r x.to_delete ≡ some true

  pub Later-refl : (x : Sent W) → Later x x
  Later-refl x = record { keeps = λ q r a. a; fewer = λ r a. a }

  pub Later-trans : {x y z : Sent W} → Later x y → Later y z → Later x z
  Later-trans a b = record {
    keeps = λ q r c. b.keeps q r (a.keeps q r c);
    fewer = λ r c. a.fewer r (b.fewer r c);
  }

  -- A mark that is taken off one block
  fewer_marks :
      (r q : BlockRef) (m : RefMap Bool)
      → lookup q (insert r false m) ≡ some true
      → lookup q m ≡ some true
  fewer_marks r q m e = by_ref (block_ref_eq r q) (sym (lookup-insert r q false m) ∙ e)
    where
      by_ref :
          (b : Bool) → (if b then some false else lookup q m) ≡ some true → lookup q m ≡ some true
      by_ref true e = absurd cc
      by_ref false e = e

  pub fewer_refused :
      (rs : List BlockRef) (q : BlockRef) (m : RefMap Bool)
      → lookup q (refuse m rs) ≡ some true
      → lookup q m ≡ some true
  unfolding refuse
  fewer_refused [] q m e = e
  fewer_refused (r ∷ rs) q m e = fewer_marks r q m (fewer_refused rs q (insert r false m) e)

  -- A block that is refused is not marked.
  pub refused :
      (rs : List BlockRef) (i : ℕ) (r : BlockRef) (m : RefMap Bool)
      → get_elem? rs i ≡ some r
      → lookup r (refuse m rs) ≢ some true
  unfolding refuse
  refused [] i r m at_r e = absurd cc
  refused (q ∷ rs) zero r m at_r e =
      let same : q ≡ r = cc in
      let off : lookup r (insert q false m) ≡ some false =
        subst (λ z. lookup r (insert z false m) ≡ some false) (sym same)
          (lookup-insert_self r false m) in
      let on : lookup r (insert q false m) ≡ some true = fewer_refused rs r (insert q false m) e in
      let wrong : some false ≡ some true = sym off ∙ on in absurd cc
  refused (q ∷ rs) (suc i) r m at_r e = refused rs i r (insert q false m) at_r e

  -- What a step leaves for the block `r` at the peer `p`
  pub record IsSent (p : Uuid) (r : BlockRef) (x x' : Sent W) : Type 0 where
    pub later : Later x x'
    pub safe : lookup r x'.to_delete ≡ some true → Holds x'.world p r

  pub send_data-IsSent :
      (x x' : Sent W) (p : Uuid) (r : BlockRef) (d : Bytes)
      → sent st cs x r (cs.put_block x.world p r d) ≡ ok x'
      → IsSent p r x x'
  unfolding sent
  send_data-IsSent x x' p r d e = by_answer (cs.put_block x.world p r d).0 refl e
    where
      by_answer :
          (a : Outcome (Unit {0}))
          → (cs.put_block x.world p r d).0 ≡ a
          → sent st cs x r (a, (cs.put_block x.world p r d).1) ≡ ok x'
          → IsSent p r x x'
      by_answer (ok _) stored e =
          subst (IsSent p r x)
            (let same : record x { world = (cs.put_block x.world p r d).1; n = x.n + 1 } ≡ x' =
                cc in
              same)
            (record {
              later = record {
                keeps = λ q r' a. h.put_keeps x.world p q r r' d a;
                fewer = λ r' a. a;
              };
              safe = λ a. h.put_holds x.world p r d stored;
            })
      by_answer (err _) failed e =
          subst (IsSent p r x)
            (let same : record x {
              world = (cs.put_block x.world p r d).1;
              n = x.n + 1;
              to_delete = insert r false x.to_delete;
            }
                  ≡ x' =
                cc in
              same)
            (record {
              later = record {
                keeps = λ q r' a. h.put_keeps x.world p q r r' d a;
                fewer = λ r' a. fewer_marks r r' x.to_delete a;
              };
              safe = λ a. absurd (
                  let wrong : some false ≡ some true =
                    sym (lookup-insert_self r false x.to_delete) ∙ a in
                  cc);
            })
      by_answer panic failed e = absurd cc
