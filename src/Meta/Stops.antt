-- ===== src/Meta/Stops.antt =====
-- Which calls stop the server of metadata/temp/temp.go for good, and that all others return.
use torus.Base.{
  ℕ, ◌+◌, ◌≡◌, ◌⊎◌, refl, ap, ◌∙◌, Bool, false, List, [], ◌∷◌, Option, none, some, Option-cases,
  inl, inr, arith, ltb, Outcome, panic,
}
use torus.Refs.{new_inode_ref, volume_max}
use torus.Peers.{Uuid}
use torus.Ring.Calls.{version}
use torus.Meta.{
  Server, VolumeData, get_data, without, unsubscribe_new_rings, all_receive, set_ring,
  delete_volume_data,
}
use torus.Meta.Volumes.{create_with, create_block_volume, delete_volume}
use torus.Meta.Runs.{
  Call, create, locks, syncs, unlocks, deletes, saves, drops, commits, new_volume, registers,
  subscribes, unsubscribes, rings, apply, run,
}

module _ (sprint : ℕ → ℕ) (require : Bool → Outcome (Unit {0})) where
  -- The calls that stop the server: the creation of a new volume with a number that `require`
  -- refuses, the deletion of a volume by the holder of its lock, the unsubscription of a channel
  -- that is no listener, and the next ring when some listener does not take it.
  abbrev pub Stops : Uuid → Server → Call → Type 0
  Stops u s (create v) = (get_data s (sprint v.id) ≡ none) × (require (ltb v.id volume_max) ≡ panic)
  Stops u s (locks vid) = ⊥
  Stops u s (syncs vid i) = ⊥
  Stops u s (unlocks vid) = ⊥
  Stops u s (deletes vid name) =
      (d : VolumeData) × (get_data s (sprint vid) ≡ some d) × (d.locked ≡ u)
  Stops u s (saves vid name now) = ⊥
  Stops u s (drops vid name) = ⊥
  Stops u s (commits vol) = ⊥
  Stops u s new_volume = ⊥
  Stops u s (registers pi) = ⊥
  Stops u s (subscribes ch) = ⊥
  Stops u s (unsubscribes ch) = without s.ring_listeners ch ≡ none
  Stops u s (rings receives r) =
      (version r ≡ version s.ring + 1) × (all_receive receives s.ring_listeners ≡ false)

  -- Some call of the list stops the server, and those before it return.
  abbrev pub HasStopped : List (Uuid × Call) → Server → Type 0
  HasStopped [] s = ⊥
  HasStopped ((w, c) ∷ cs) s =
      Stops w s c ⊎ ((t : Server) × (apply sprint require w s c ≡ some t) × HasStopped cs t)

  -- No other call stops it.
  apply-Stops : (u : Uuid) (s : Server) (c : Call) → apply sprint require u s c ≡ none → Stops u s c
  unfolding apply create_block_volume create_with new_inode_ref delete_volume delete_volume_data
      unsubscribe_new_rings set_ring
  apply-Stops u s (create v) e = ground arith
  apply-Stops u s (locks vid) e = absurd cc
  apply-Stops u s (syncs vid i) e = absurd cc
  apply-Stops u s (unlocks vid) e = absurd cc
  apply-Stops u s (deletes vid name) e = ground arith
  apply-Stops u s (saves vid name now) e = absurd cc
  apply-Stops u s (drops vid name) e = absurd cc
  apply-Stops u s (commits vol) e = absurd cc
  apply-Stops u s new_volume e = absurd cc
  apply-Stops u s (registers pi) e = absurd cc
  apply-Stops u s (subscribes ch) e = absurd cc
  apply-Stops u s (unsubscribes ch) e = ground arith
  apply-Stops u s (rings receives r) e = ground arith

  -- And each of these does stop it.
  Stops-apply : (u : Uuid) (s : Server) (c : Call) → Stops u s c → apply sprint require u s c ≡ none
  unfolding apply create_block_volume create_with new_inode_ref delete_volume delete_volume_data
      unsubscribe_new_rings set_ring
  Stops-apply u s (create v) h = ground (arith, h)
  Stops-apply u s (deletes vid name) (d, there, mine) = ground (arith, there, mine)
  Stops-apply u s (unsubscribes ch) h = ground (arith, h)
  Stops-apply u s (rings receives r) (next_one, blocked) = ground (arith, next_one, blocked)
  Stops-apply u s (locks vid) h = absurd h
  Stops-apply u s (syncs vid i) h = absurd h
  Stops-apply u s (unlocks vid) h = absurd h
  Stops-apply u s (saves vid name now) h = absurd h
  Stops-apply u s (drops vid name) h = absurd h
  Stops-apply u s (commits vol) h = absurd h
  Stops-apply u s new_volume h = absurd h
  Stops-apply u s (registers pi) h = absurd h
  Stops-apply u s (subscribes ch) h = absurd h

  -- Calls of which none stops the server leave a server.
  pub run-returns :
      (cs : List (Uuid × Call)) (s : Server)
      → ¬ HasStopped cs s
      → (t : Server) × (run sprint require cs s ≡ some t)
  unfolding run
  run-returns [] s h = (s, refl)
  run-returns ((w, c) ∷ cs) s h = elim (Option-cases (apply sprint require w s c)) [
    | inl e ↦ absurd (h (inl (apply-Stops w s c e)))
    | inr (t, e) ↦
        let (t', rest) = run-returns cs t (λ later. h (inr (t, e, later))) in
        (
          t',
          ap (λ (o : Option Server). elim o [ none ↦ none | some x ↦ run sprint require cs x ]) e
              ∙ rest,
        )
  ]
