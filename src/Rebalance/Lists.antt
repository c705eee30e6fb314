-- ===== src/Rebalance/Lists.antt =====
-- The second loop of a tick, distributor/rebalance/tick.go, over all peers and all their blocks.
use torus.Base.{
  ℕ, zero, suc, ◌≡◌, refl, sym, ap, subst, ◌∙◌, Bool, true, false, List, [], ◌∷◌, some, length,
  arith, inl, inr, get_elem?, Bool-cases, ◌==◌, if◌then◌else◌, Bytes, Outcome, ok, err, panic,
  ◌>>=◌,
}
use torus.Refs.{BlockRef}
use torus.RefMap.{lookup}
use torus.NumMap.{NumMap, find}
use torus.Peers.{Uuid}
use torus.Store.Interface.{BlockStore}
use torus.Rebalance.{CheckAndSender, Sent, refuse, send_data, send_list, answered, send_all}
use torus.Rebalance.Sends.{
  IsHonest, Later, Later-refl, Later-trans, fewer_refused, refused, send_data-IsSent,
}

pub bind_ok {ℓ κ} :
    {A : Type ℓ} {B : Type κ} (o : Outcome A) (f : A → Outcome B) (b : B)
    → (o >>= f) ≡ ok b
    → (a : A) × (o ≡ ok a) × (f a ≡ ok b)
bind_ok (ok a) f b e = (a, refl, e)
bind_ok (err x) f b e = absurd cc
bind_ok panic f b e = absurd cc

module _ {S W : Type 0} (st : BlockStore S) (cs : CheckAndSender W)
    (Holds : W → Uuid → BlockRef → Type 0) (h : IsHonest cs Holds) (s : S) where
  abbrev pub IsReadable : BlockRef → Type 0
  IsReadable r = (d : Bytes) × (st.get_block s r ≡ ok d)

  -- What the sends to the peer `p` leave: a block of the list that can be read here and stays marked
  -- is with the peer.
  pub record IsListSent (p : Uuid) (rs : List BlockRef) (x x' : Sent W) : Type 0 where
    pub later : Later st cs Holds h x x'
    pub safe :
        (i : ℕ) (r : BlockRef)
        → get_elem? rs i ≡ some r
        → IsReadable r
        → lookup r x'.to_delete ≡ some true
        → Holds x'.world p r

  -- One block that the peer does not have
  sent_one :
      (x x' : Sent W) (p : Uuid) (r : BlockRef) (o : Outcome Bytes)
      → st.get_block s r ≡ o
      → send_data st cs x p r o ≡ ok x'
      → Later st cs Holds h x x'
        × (IsReadable r → lookup r x'.to_delete ≡ some true → Holds x'.world p r)
  unfolding send_data
  sent_one x x' p r (ok d) got e =
      let one = send_data-IsSent st cs Holds h x x' p r d e in (one.later, λ c. one.safe)
  sent_one x x' p r (err f) got e = (
    subst (Later st cs Holds h x) (let same : x ≡ x' = cc in same) (Later-refl st cs Holds h x),
    λ c a. absurd (let wrong : err f ≡ ok c.0 = sym got ∙ c.1 in cc),
  )
  sent_one x x' p r panic got e = absurd cc

  cons_safe :
      (p : Uuid) (r : BlockRef) (rs : List BlockRef) (x' : Sent W)
      → ((i : ℕ) (q : BlockRef)
          → get_elem? rs i ≡ some q
          → IsReadable q
          → lookup q x'.to_delete ≡ some true
          → Holds x'.world p q)
      → (IsReadable r → lookup r x'.to_delete ≡ some true → Holds x'.world p r)
      → (i : ℕ) (q : BlockRef) → get_elem? (r ∷ rs) i ≡ some q
      → IsReadable q
      → lookup q x'.to_delete ≡ some true
      → Holds x'.world p q
  cons_safe p r rs x' behind front zero q at_q c a =
      let same : r ≡ q = cc in
      subst (λ z. Holds x'.world p z) same
        (front (c.0, ap (λ z. st.get_block s z) same ∙ c.1)
          (ap (λ z. lookup z x'.to_delete) same ∙ a))
  cons_safe p r rs x' behind front (suc i) q at_q c a = behind i q at_q c a

  send_list-IsListSent :
      (x x' : Sent W) (p : Uuid) (rs : List BlockRef) (oks : List Bool)
      → length oks ≡ length rs
      → ((i : ℕ) (r : BlockRef)
          → get_elem? rs i ≡ some r
          → get_elem? oks i ≡ some true
          → Holds x.world p r)
      → send_list st cs s x p rs oks ≡ ok x'
      → IsListSent p rs x x'
  unfolding send_list
  send_list-IsListSent x x' p [] [] size known e =
      subst (IsListSent p [] x) (let same : x ≡ x' = cc in same)
        (record { later = Later-refl st cs Holds h x; safe = λ i r at_r. absurd cc })
  send_list-IsListSent x x' p [] (o ∷ oks) size known e = absurd (omega arith)
  send_list-IsListSent x x' p (r ∷ rs) [] size known e = absurd (omega arith)
  send_list-IsListSent x x' p (r ∷ rs) (true ∷ oks) size known e =
      let rest =
        send_list-IsListSent x x' p rs oks (omega arith)
          (λ i q at_q told. known (suc i) q at_q told) e in
      record {
        later = rest.later;
        safe = cons_safe p r rs x' rest.safe (λ c a. rest.later.keeps p r (known 0 r refl refl));
      }
  send_list-IsListSent x x' p (r ∷ rs) (false ∷ oks) size known e =
      let (x1, one, more) =
        bind_ok (send_data st cs x p r (st.get_block s r)) (λ y. send_list st cs s y p rs oks) x'
          e in
      let (later, front) = sent_one x x1 p r (st.get_block s r) refl one in
      let rest =
        send_list-IsListSent x1 x' p rs oks (omega arith)
          (λ i q at_q told. later.keeps p q (known (suc i) q at_q told)) more in
      record {
        later = Later-trans st cs Holds h later rest.later;
        safe =
            cons_safe p r rs x' rest.safe
              (λ c a. rest.later.keeps p r (front c (rest.later.fewer r a)));
      }

  -- The answer to a check, right or wrong
  answered-IsListSent :
      (x x' : Sent W) (p : Uuid) (rs : List BlockRef) (a : Outcome (List Bool))
      → (cs.check x.world p rs).0 ≡ a
      → answered st cs s x p rs (a, (cs.check x.world p rs).1) ≡ ok x'
      → IsListSent p rs x x'
  unfolding answered
  answered-IsListSent x x' p rs (ok oks) said e =
      let x0 : Sent W = record x { world = (cs.check x.world p rs).1 } in
      let asked : Later st cs Holds h x x0 = record {
        keeps = λ q r b. h.check_keeps x.world p q rs r b;
        fewer = λ r b. b;
      } in
      let list =
        send_list-IsListSent x0 x' p rs oks (h.check_size x.world p rs oks said)
          (λ i r at_r told. h.check_holds x.world p rs oks i r said at_r told) e in
      record { later = Later-trans st cs Holds h asked list.later; safe = list.safe }
  answered-IsListSent x x' p rs (err f) said e =
      subst (IsListSent p rs x)
        (let same : record x {
          world = (cs.check x.world p rs).1;
          to_delete = refuse x.to_delete rs;
        }
              ≡ x' =
            cc in
          same)
        (record {
          later = record {
            keeps = λ q r b. h.check_keeps x.world p q rs r b;
            fewer = λ r b. fewer_refused st cs Holds h rs r x.to_delete b;
          };
          safe = λ i r at_r c b. absurd (refused st cs Holds h rs i r x.to_delete at_r b);
        })
  answered-IsListSent x x' p rs panic said e = absurd cc

  pub send_all-Later :
      (x x' : Sent W) (m : NumMap (List BlockRef))
      → send_all st cs s x m ≡ ok x'
      → Later st cs Holds h x x'
  unfolding send_all
  send_all-Later x x' [] e =
      subst (Later st cs Holds h x) (let same : x ≡ x' = cc in same) (Later-refl st cs Holds h x)
  send_all-Later x x' ((p, rs) ∷ m) e =
      let (x1, one, more) =
        bind_ok (answered st cs s x p rs (cs.check x.world p rs)) (λ y. send_all st cs s y m) x'
          e in
      let first = answered-IsListSent x x1 p rs (cs.check x.world p rs).0 refl one in
      Later-trans st cs Holds h first.later (send_all-Later x1 x' m more)

  -- After the sends, a block that can be read here and is still marked for deletion is with each peer
  -- on whose list it was.
  pub send_all-safe :
      (x x' : Sent W) (m : NumMap (List BlockRef)) (p : Uuid) (rs : List BlockRef) (i : ℕ)
      (r : BlockRef)
      → send_all st cs s x m ≡ ok x'
      → find p m ≡ some rs
      → get_elem? rs i ≡ some r
      → IsReadable r
      → lookup r x'.to_delete ≡ some true
      → Holds x'.world p r
  unfolding send_all
  send_all-safe x x' [] p rs i r e listed at_r c a = absurd cc
  send_all-safe x x' ((q, qs) ∷ m) p rs i r e listed at_r c a =
      let (x1, one, more) =
        bind_ok (answered st cs s x q qs (cs.check x.world q qs)) (λ y. send_all st cs s y m) x'
          e in
      let first = answered-IsListSent x x1 q qs (cs.check x.world q qs).0 refl one in
      let later = send_all-Later x1 x' m more in
      elim (Bool-cases (q == p)) [
        | inl here_ ↦
            let peer : q ≡ p = ground arith in
            let list : some qs ≡ some rs =
              sym (ap (λ b. if b then some qs else find p m) here_) ∙ listed in
            let same : qs ≡ rs = cc in
            let at_q : get_elem? qs i ≡ some r = ap (λ l. get_elem? l i) same ∙ at_r in
            subst (λ n. Holds x'.world n r) peer
              (later.keeps q r (first.safe i r at_q c (later.fewer r a)))
        | inr there ↦
            send_all-safe x1 x' m p rs i r more
              (sym (ap (λ b. if b then some qs else find p m) there) ∙ listed) at_r c a
      ]
