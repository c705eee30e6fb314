-- ===== src/Meta/Holding.antt =====
-- What a client may rely on while it holds the lock of a volume, block/temp.go, when the calls of others return.
use torus.Base.{
  ℕ, ◌≡◌, ◌≢◌, refl, sym, ap, subst, ◌∙◌, Bool, Option, none, some, arith, Outcome, ok, err, panic,
}
use torus.Refs.{INodeRef}
use torus.Peers.{Uuid}
use torus.Ring.Types.{Ring}
use torus.Meta.{
  Server, commit_inode_index, new_volume_id, register_peer, subscribe_new_rings,
  unsubscribe_new_rings, set_ring, delete_volume_data,
}
use torus.Meta.Volumes.{
  create_block_volume, locked_by, lock, sync_inode, unlock, delete_volume, save_snapshot,
  delete_snapshot,
}
use torus.Meta.Runs.{
  Call, create, locks, syncs, unlocks, deletes, saves, drops, commits, new_volume, registers,
  subscribes, unsubscribes, rings, apply, returned, survived, unsubscribed,
}
use torus.Meta.Locks.{
  IsHeld, IsHeld-same, IsHeld-change, IsHeld-create, locked_by-IsHarmless, synced_to-IsHarmless,
  unlocked_by-IsHarmless, saved-IsHarmless, dropped-IsHarmless,
}

-- A deletion by anyone who returns from it changes nothing.
delete_volume-same :
    (sprint : ℕ → ℕ) (u : Uuid) (name vid : ℕ) (s : Server) (r : Outcome (Unit {0}) × Server)
    → delete_volume sprint u name s vid ≡ some r
    → r.1 ≡ s
unfolding delete_volume delete_volume_data
delete_volume-same sprint u name vid s r h = ground arith

unsubscribe-same : (s t : Server) (ch : ℕ) → unsubscribe_new_rings s ch ≡ ok t → t.keys ≡ s.keys
unfolding unsubscribe_new_rings
unsubscribe-same s t ch h = ground arith

set_ring-same :
    (receives : ℕ → Bool) (s : Server) (r : Ring) (o : Outcome (Unit {0}) × Server)
    → set_ring receives s r ≡ some o
    → o.1.keys ≡ s.keys
unfolding set_ring
set_ring-same receives s r o h = ground arith

-- The server behind a call that returns
returned_lem :
    (o : Option (Outcome (Unit {0}) × Server)) (t : Server)
    → returned o ≡ some t
    → (r : Outcome (Unit {0}) × Server) × (o ≡ some r) × (r.1 ≡ t)
returned_lem none t e = absurd cc
returned_lem (some r) t e = (r, refl, let same : r.1 ≡ t = cc in same)

survived_lem : (a : Outcome (Unit {0})) (s t : Server) → survived a s ≡ some t → s ≡ t
survived_lem (ok _) s t e = cc
survived_lem (err x) s t e = cc
survived_lem panic s t e = absurd cc

unsubscribed_lem :
    (o : Outcome Server) (s t : Server)
    → ((t' : Server) → o ≡ ok t' → t'.keys ≡ s.keys)
    → unsubscribed o s ≡ some t
    → t.keys ≡ s.keys
unsubscribed_lem (ok t') s t k e =
    let same : t' ≡ t = cc in sym (ap (λ (x : Server). x.keys) same) ∙ k t' refl
unsubscribed_lem (err x) s t k e = let same : s ≡ t = cc in sym (ap (λ (x : Server). x.keys) same)
unsubscribed_lem panic s t k e = absurd cc

module _ (sprint : ℕ → ℕ) (require : Bool → Outcome (Unit {0})) where
  pub apply-IsHeld :
      (u w : Uuid) (i : INodeRef) (x : ℕ) (s t : Server) (c : Call)
      → u ≢ 0
      → w ≢ u
      → apply sprint require w s c ≡ some t
      → IsHeld u i x s
      → IsHeld u i x t
  unfolding apply lock sync_inode unlock save_snapshot delete_snapshot commit_inode_index
      new_volume_id register_peer subscribe_new_rings
  apply-IsHeld u w i x s t c pos ne e h = by_call c e
    where
      moved :
          (t' : Server)
          → ◌≡◌ {A = Option Server} (some t') (some t)
          → IsHeld u i x t'
          → IsHeld u i x t
      moved t' e' h' = subst (IsHeld u i x) (let same : t' ≡ t = cc in same) h'

      by_call : (c : Call) → apply sprint require w s c ≡ some t → IsHeld u i x t
      by_call (create v) e =
          subst (IsHeld u i x) (survived_lem (create_block_volume sprint require s v).0 _ t e)
            (IsHeld-create sprint require u i x v s h)
      by_call (locks vid) e =
          moved _ e
            (IsHeld-change sprint u i x vid (locked_by w) s (locked_by-IsHarmless u w pos) h)
      by_call (syncs vid j) e =
          moved _ e (IsHeld-change sprint u i x vid _ s (synced_to-IsHarmless u w j ne) h)
      by_call (unlocks vid) e =
          moved _ e (IsHeld-change sprint u i x vid _ s (unlocked_by-IsHarmless u w ne) h)
      by_call (deletes vid name) e =
          let (r, done, at_t) = returned_lem (delete_volume sprint w name s vid) t e in
          subst (IsHeld u i x) (sym (delete_volume-same sprint w name vid s r done) ∙ at_t) h
      by_call (saves vid name now) e =
          moved _ e (IsHeld-change sprint u i x vid _ s (saved-IsHarmless u name now) h)
      by_call (drops vid name) e =
          moved _ e (IsHeld-change sprint u i x vid _ s (dropped-IsHarmless u name) h)
      by_call (commits vol) e = moved _ e (IsHeld-same u i x s _ refl h)
      by_call new_volume e = moved _ e (IsHeld-same u i x s _ refl h)
      by_call (registers pi) e = moved _ e (IsHeld-same u i x s _ refl h)
      by_call (subscribes ch) e = moved _ e (IsHeld-same u i x s _ refl h)
      by_call (unsubscribes ch) e =
          IsHeld-same u i x s t
            (unsubscribed_lem (unsubscribe_new_rings s ch) s t (λ t'. unsubscribe-same s t' ch) e) h
      by_call (rings receives r) e =
          let (o, done, at_t) = returned_lem (set_ring receives s r) t e in
          IsHeld-same u i x s t
            (sym (ap (λ (y : Server). y.keys) at_t) ∙ set_ring-same receives s r o done) h
