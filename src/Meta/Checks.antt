-- ===== src/Meta/Checks.antt =====
-- Two clients of the metadata service in memory, and instances of the laws of the lock.
use torus.Base.{
  ℕ, ◌+◌, ◌==◌, ◌≡◌, ◌≢◌, refl, sym, ap, ◌∙◌, Bool, true, false, List, [], ◌∷◌, none, some, inl,
  inr, arith, if◌then◌else◌, Outcome, ok, err, panic, Error,
}
use torus.Refs.{INodeRef, new_inode_ref}
use torus.Ring.Types.{empty}
use torus.Ring.Calls.{version}
use torus.Meta
use torus.Meta.{
  Server, Volume, new_server, create_volume, get_data, set_data, commit_inode_index,
  get_inode_index, all_receive, subscribe_new_rings, set_ring,
}
use torus.Meta.Volumes.{
  change, create_with, create_block_volume, lock, get_inode, delete_volume, saved, has_snapshot,
  save_snapshot,
}
use torus.Peers.{Uuid}
use torus.Meta.Runs.{Call, locks, commits, subscribes, deletes, rings, apply, run}
use torus.Meta.Stops.{HasStopped}
use torus.Meta.Exclusion.{IsAlone, IsFree, lock-IsAlone, lock-IsFree}

abbrev printed : ℕ → ℕ
printed n = n + 100

abbrev required : Bool → Outcome (Unit {0})
required b = if b then ok tt else panic

abbrev first_inode : INodeRef
first_inode = record { volume = 1; inode = 1 }

abbrev one_volume : Server
one_volume =
    (create_block_volume printed required new_server
      (record { name = 20; id = 1; kind = 3; max_bytes = 4096 })).1

abbrev locked_by_7 : Server
locked_by_7 = (lock printed 7 one_volume 1).1

abbrev takes_40 : ℕ → Bool
takes_40 c = c == 40

-- Another client asks for the lock, takes an index for an inode, and sets a ring that its one listener
-- takes.
abbrev calls : List (Uuid × Call)
calls = (8, locks 1) ∷ (8, commits 1) ∷ (8, subscribes 40) ∷ (8, rings takes_40 (empty 2)) ∷ []

seven : ◌≢◌ {A = ℕ} 7 0
seven e = omega arith

eight : ◌≢◌ {A = ℕ} 8 7
eight e = omega arith

lock_ok : (lock printed 7 one_volume 1).0 ≡ ok tt
unfolding lock change get_data create_block_volume create_with set_data create_volume new_server
    new_inode_ref
lock_ok = refl

inode_ok : get_inode printed one_volume 1 ≡ ok first_inode
unfolding get_inode get_data create_block_volume create_with set_data create_volume new_server
    new_inode_ref
inode_ok = refl

abbrev asked : Server
asked = (lock printed 8 locked_by_7 1).1

abbrev counted : Server
counted = (commit_inode_index asked 1).1

abbrev listening : Server
listening = subscribe_new_rings counted 40

takes_all : all_receive takes_40 listening.ring_listeners ≡ true
unfolding all_receive subscribe_new_rings commit_inode_index lock change get_data
    create_block_volume create_with set_data create_volume new_server new_inode_ref
takes_all = refl

none_stops : ¬ HasStopped printed required calls locked_by_7
unfolding apply
none_stops (inl h) = h
none_stops (inr (t1, e1, inl h)) = h
none_stops (inr (t1, e1, inr (t2, e2, inl h))) = h
none_stops (inr (t1, e1, inr (t2, e2, inr (t3, e3, inl (step, blocked))))) =
    let at_1 : asked ≡ t1 = cc in
    let at_2 : counted ≡ t2 =
      let e : (commit_inode_index t1 1).1 ≡ t2 = cc in
      ap (λ t. (commit_inode_index t 1).1) at_1 ∙ e in
    let at_3 : listening ≡ t3 =
      let e : subscribe_new_rings t2 40 ≡ t3 = cc in ap (λ t. subscribe_new_rings t 40) at_2 ∙ e in
    let wrong : true ≡ false =
      sym takes_all ∙ (ap (λ (t : Server). all_receive takes_40 t.ring_listeners) at_3 ∙ blocked) in
    cc
none_stops (inr (t1, e1, inr (t2, e2, inr (t3, e3, inr (t4, e4, h))))) = h

lock-IsAlone_example :
    (t : Server) × (run printed required calls locked_by_7 ≡ some t)
    × IsAlone printed 7 first_inode 1 t
lock-IsAlone_example =
    lock-IsAlone printed required 7 first_inode 1 one_volume calls seven lock_ok inode_ok
      (eight, (eight, (eight, (eight, tt)))) none_stops

lock-IsFree_example :
    (t : Server) × (run printed required calls locked_by_7 ≡ some t)
    × IsFree printed 7 first_inode 1 t
lock-IsFree_example =
    lock-IsFree printed required 7 first_inode 1 one_volume calls seven lock_ok inode_ok
      (eight, (eight, (eight, (eight, tt)))) none_stops

-- The holder's deletion of its volume waits for a mutex that it holds.
deletion_waits : delete_volume printed 7 20 locked_by_7 1 ≡ none
unfolding delete_volume Meta.delete_volume_data lock change get_data create_block_volume create_with
    set_data create_volume new_server new_inode_ref
deletion_waits = refl

-- A snapshot needs no lock.
snapshot_unlocked : (save_snapshot printed locked_by_7 1 5 0).0 ≡ ok tt
unfolding save_snapshot saved has_snapshot lock change get_data create_block_volume create_with
    set_data create_volume new_server new_inode_ref
snapshot_unlocked = refl

first_index : (commit_inode_index one_volume 1).0 ≡ 2
unfolding commit_inode_index get_inode_index create_block_volume create_with set_data create_volume
    new_server new_inode_ref get_data
first_index = refl

-- A ring goes up by one version at a time.
ring_skipped :
    set_ring (λ c. true) new_server (empty 3) ≡ some (err Error.non_sequential_ring, new_server)
unfolding set_ring version new_server
ring_skipped = refl

-- A listener that does not take the ring keeps the mutex from everybody.
ring_blocks :
    run printed required
      ((8, subscribes 40) ∷ (8, rings (λ c. false) (empty 2)) ∷ (9, commits 1) ∷ [])
      new_server
    ≡ none
unfolding run apply subscribe_new_rings set_ring all_receive version new_server
ring_blocks = refl

-- So does a client that deletes a volume it has locked.
deletion_stops : run printed required ((7, deletes 1 20) ∷ (8, locks 1) ∷ []) locked_by_7 ≡ none
unfolding run apply delete_volume Meta.delete_volume_data lock change get_data create_block_volume
    create_with set_data create_volume new_server new_inode_ref
deletion_stops = refl
