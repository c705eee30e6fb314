-- ===== src/Rebalance/Scans.antt =====
-- The whole first loop of a tick, distributor/rebalance/tick.go: the marks to delete, and those of the dead.
use torus.Base.{
  ℕ, zero, suc, ◌≡◌, refl, sym, ap, subst, ◌∙◌, Bool, true, false, List, [], ◌∷◌, none, some,
  length, take, inl, inr, ltb, Bool-cases, if◌then◌else◌, Outcome, ok, panic, ◌>>=◌,
}
use torus.Refs.{BlockRef, block_ref_eq}
use torus.Refs.Fields.{block_ref_eq_iff}
use torus.RefMap.{lookup, insert, lookup-insert}
use torus.Peers.{Uuid, PeerPermutation, index_at}
use torus.Rebalance.{Plan, Guide, plan_block, scan}
use torus.Rebalance.Lists.{bind_ok}
use torus.Rebalance.Plans.{IsPlan, next_plan, plan_block-IsPlan}

-- What both kinds of rounds keep, the first loop keeps.
scan_keeps :
    (g : Guide) (P : Plan → Type 0)
    → ((x : Plan) (r : BlockRef)
        → g.is_dead r ≡ true
        → P x
        → P (record x { dead = insert r true x.dead }))
    → ((x x' : Plan) (r : BlockRef) (perm : PeerPermutation)
        → g.get_peers r ≡ ok perm
        → plan_block g.me x r perm ≡ ok x'
        → P x
        → P x')
    → (k : ℕ) (refs : List BlockRef) (x : Plan) (t : Plan × List BlockRef × Bool)
    → scan g k refs x ≡ ok t
    → P x
    → P t.0
unfolding scan
scan_keeps g P bury plan zero refs x t e v = subst P (ap_plan e) v
  where
    ap_plan : ok (x, refs, false) ≡ ok t → x ≡ t.0
    ap_plan e =
        let same : (x, refs, false) ≡ t = cc in ap (λ (u : Plan × List BlockRef × Bool). u.0) same
scan_keeps g P bury plan (suc k) [] x t e v = subst P (ap_plan e) v
  where
    ap_plan : ok (x, [], true) ≡ ok t → x ≡ t.0
    ap_plan e =
        let same : (x, [], true) ≡ t = cc in ap (λ (u : Plan × List BlockRef × Bool). u.0) same
scan_keeps g P bury plan (suc k) (r ∷ rs) x t e v = elim (Bool-cases (g.is_dead r)) [
  | inl dead ↦
      let buried : Outcome (Plan × List BlockRef × Bool) =
        scan g k rs (record x { dead = insert r true x.dead }) in
      let planned : Outcome (Plan × List BlockRef × Bool) =
        g.get_peers r >>= λ perm. plan_block g.me x r perm >>= λ x'. scan g k rs x' in
      let e' : buried ≡ ok t = sym (ap (λ b. if b then buried else planned) dead) ∙ e in
      scan_keeps g P bury plan k rs (record x { dead = insert r true x.dead }) t e'
        (bury x r dead v)
  | inr alive ↦
      let buried : Outcome (Plan × List BlockRef × Bool) =
        scan g k rs (record x { dead = insert r true x.dead }) in
      let planned : Outcome (Plan × List BlockRef × Bool) =
        g.get_peers r >>= λ perm. plan_block g.me x r perm >>= λ x'. scan g k rs x' in
      let e' : planned ≡ ok t = sym (ap (λ b. if b then buried else planned) alive) ∙ e in
      let (perm, placed, on) =
        bind_ok (g.get_peers r) (λ perm. plan_block g.me x r perm >>= λ x'. scan g k rs x') t e' in
      let (x1, planned_, rest) = bind_ok (plan_block g.me x r perm) (λ x'. scan g k rs x') t on in
      scan_keeps g P bury plan k rs x1 t rest (plan x x1 r perm placed planned_ v)
]

plan_block-dead :
    (me : Uuid) (x x' : Plan) (r : BlockRef) (perm : PeerPermutation)
    → plan_block me x r perm ≡ ok x'
    → x'.dead ≡ x.dead
unfolding plan_block
plan_block-dead me x x' r perm e = by_size (ltb (length perm.peers) perm.replication) e
  where
    by_size :
        (b : Bool)
        → (if b
            then panic
            else ok (
                next_plan x r
                  (take perm.replication perm.peers)
                  (index_at (take perm.replication perm.peers) me)))
          ≡ ok x'
        → x'.dead ≡ x.dead
    by_size true e = absurd cc
    by_size false e =
        let same : next_plan x r (take perm.replication perm.peers)
              (index_at (take perm.replication perm.peers) me)
            ≡ x' =
          cc in
        sym (ap (λ (u : Plan). u.dead) same)

-- What a tick starts with
abbrev pub no_plan : Plan
no_plan = record { wanted = []; to_delete = []; dead = [] }

pub scan-IsPlan :
    (g : Guide) (k : ℕ) (refs : List BlockRef) (t : Plan × List BlockRef × Bool)
    → scan g k refs no_plan ≡ ok t
    → IsPlan g t.0
scan-IsPlan g k refs t e =
    scan_keeps g (IsPlan g) (λ x r dead v. v)
      (λ x x' r perm placed on v. plan_block-IsPlan g x x' r perm placed on v) k refs no_plan t e
      (λ r a. absurd (let wrong : none ≡ some true = a in cc))

-- Only what the collector calls dead is marked as dead.
pub scan-dead :
    (g : Guide) (k : ℕ) (refs : List BlockRef) (t : Plan × List BlockRef × Bool)
    → scan g k refs no_plan ≡ ok t
    → (r : BlockRef) → lookup r t.0.dead ≡ some true
    → g.is_dead r ≡ true
scan-dead g k refs t e =
    scan_keeps g (λ x. (r : BlockRef) → lookup r x.dead ≡ some true → g.is_dead r ≡ true)
      (λ x q dead v r a.
        by_ref x q r dead v (block_ref_eq q r) refl (sym (lookup-insert q r true x.dead) ∙ a))
      (λ x x' q perm placed on v r a.
        v r (ap (λ m. lookup r m) (sym (plan_block-dead g.me x x' q perm on)) ∙ a))
      k refs no_plan t e (λ r a. absurd (let wrong : none ≡ some true = a in cc))
  where
    by_ref :
        (x : Plan) (q r : BlockRef)
        → g.is_dead q ≡ true
        → ((r : BlockRef) → lookup r x.dead ≡ some true → g.is_dead r ≡ true)
        → (b : Bool) → block_ref_eq q r ≡ b
        → (if b then some true else lookup r x.dead) ≡ some true
        → g.is_dead r ≡ true
    by_ref x q r dead v true same a =
        sym (ap (λ z. g.is_dead z) ((block_ref_eq_iff q r).0 same)) ∙ dead
    by_ref x q r dead v false other a = v r a
