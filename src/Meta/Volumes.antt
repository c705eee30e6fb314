-- ===== src/Meta/Volumes.antt =====
-- `blockTempMetadata` of block/temp.go: the calls of a client, by its UUID `u`, on the volume `vid`. `sprint`
-- is `fmt.Sprint` of a volume's number.
use torus.Base.{
  ℕ, Bool, true, false, List, [], ◌∷◌, ◌++◌, Option, none, some, ◌==◌, if◌then◌else◌, Outcome, ok,
  err, panic, Error,
}
use torus.Refs.{INodeRef, new_inode_ref, inode_ref_to_bytes}
use torus.Peers.{Uuid}
use torus.Meta.{
  Server, Volume, VolumeData, Snapshot, get_data, set_data, create_volume, delete_volume_data,
}

abbrev pub locked_by : Uuid → VolumeData → Outcome (Unit {0}) × VolumeData
locked_by u d = if d.locked == 0 then (ok tt, record d { locked = u }) else (err Error.locked, d)

abbrev pub synced_to : Uuid → INodeRef → VolumeData → Outcome (Unit {0}) × VolumeData
synced_to u i d = if d.locked == u then (ok tt, record d { id = i }) else (err Error.locked, d)

abbrev pub unlocked_by : Uuid → VolumeData → Outcome (Unit {0}) × VolumeData
unlocked_by u d = if d.locked == u then (ok tt, record d { locked = 0 }) else (err Error.locked, d)

-- The loop over the snapshots
unfoldable pub has_snapshot : List Snapshot → ℕ → Bool
has_snapshot [] name = false
has_snapshot (x ∷ xs) name = if x.name == name then true else has_snapshot xs name

unfoldable pub saved : ℕ → ℕ → VolumeData → Outcome (Unit {0}) × VolumeData
unfolding has_snapshot
saved name now d = if has_snapshot d.snaps name then (err Error.exists_already, d) else (
  ok tt,
  record d {
    snaps =
        d.snaps ++ (record { name = name; time = now; inode_ref = inode_ref_to_bytes d.id } ∷ []);
  },
)

-- The snapshots without the first of the name
unfoldable pub cut_snapshot : List Snapshot → ℕ → Option (List Snapshot)
cut_snapshot [] name = none
cut_snapshot (x ∷ xs) name =
    let rest = cut_snapshot xs name in
    if x.name == name then some xs else elim rest [ none ↦ none | some l ↦ some (x ∷ l) ]

unfoldable pub dropped : ℕ → VolumeData → Outcome (Unit {0}) × VolumeData
unfolding cut_snapshot
dropped name d = elim (cut_snapshot d.snaps name) [
  | none ↦ (err Error.not_exist, d)
  | some l ↦ (ok tt, record d { snaps = l })
]

-- The rest of `CreateBlockVolume`, for the first inode
unfoldable pub create_with : Server → Volume → ℕ → Outcome INodeRef → Outcome (Unit {0}) × Server
create_with s v key (ok i) =
    (ok tt, set_data (create_volume s v) key (record { locked = 0; id = i; snaps = [] }))
create_with s v key (err e) = (err e, create_volume s v)
create_with s v key panic = (panic, create_volume s v)

module _ (sprint : ℕ → ℕ) where
  -- What the calls begin with: the data of the volume, which `f` changes in place.
  unfoldable pub change :
      Server → ℕ → (VolumeData → Outcome (Unit {0}) × VolumeData) → Outcome (Unit {0}) × Server
  change s vid f = elim (get_data s (sprint vid)) [
    | none ↦ (err Error.not_exist, s)
    | some d ↦ ((f d).0, set_data s (sprint vid) (f d).1)
  ]

  -- `require` is `godbc.Require`, which `NewINodeRef` calls.
  unfoldable pub create_block_volume :
      (Bool → Outcome (Unit {0})) → Server → Volume → Outcome (Unit {0}) × Server
  unfolding create_with
  create_block_volume require s v = elim (get_data s (sprint v.id)) [
    | some d ↦ (err Error.exists_already, s)
    | none ↦ create_with s v (sprint v.id) (new_inode_ref require v.id 1)
  ]

  unfoldable pub lock : Uuid → Server → ℕ → Outcome (Unit {0}) × Server
  unfolding change
  lock u s vid = change s vid (locked_by u)

  unfoldable pub get_inode : Server → ℕ → Outcome INodeRef
  get_inode s vid = elim (get_data s (sprint vid)) [ none ↦ err Error.not_exist | some d ↦ ok d.id ]

  unfoldable pub sync_inode : Uuid → Server → ℕ → INodeRef → Outcome (Unit {0}) × Server
  unfolding change
  sync_inode u s vid i = change s vid (synced_to u i)

  unfoldable pub unlock : Uuid → Server → ℕ → Outcome (Unit {0}) × Server
  unfolding change
  unlock u s vid = change s vid (unlocked_by u)

  -- The call of `Client.DeleteVolume` is made with the mutex held; `none` is a call that never returns.
  unfoldable pub delete_volume : Uuid → ℕ → Server → ℕ → Option (Outcome (Unit {0}) × Server)
  delete_volume u name s vid = elim (get_data s (sprint vid)) [
    | none ↦ some (err Error.not_exist, s)
    | some d ↦
        if d.locked == u
        then elim (delete_volume_data true s name) [ none ↦ none | some s' ↦ some (ok tt, s') ]
        else some (err Error.locked, s)
  ]

  unfoldable pub save_snapshot : Server → ℕ → ℕ → ℕ → Outcome (Unit {0}) × Server
  unfolding change saved
  save_snapshot s vid name now = change s vid (saved name now)

  unfoldable pub get_snapshots : Server → ℕ → Outcome (List Snapshot)
  get_snapshots s vid = elim (get_data s (sprint vid)) [
    | none ↦ err Error.not_exist
    | some d ↦ ok d.snaps
  ]

  unfoldable pub delete_snapshot : Server → ℕ → ℕ → Outcome (Unit {0}) × Server
  unfolding change dropped
  delete_snapshot s vid name = change s vid (dropped name)
