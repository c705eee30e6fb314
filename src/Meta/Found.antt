-- ===== src/Meta/Found.antt =====
-- A call on a volume whose data is there, block/temp.go: its answer, and the data behind it.
use torus.Base.{ℕ, ◌≡◌, ap, ◌∙◌, some, Outcome, ok, err, Error}
use torus.Refs.{INodeRef}
use torus.NumMap.{find-put_self}
use torus.Meta.{Server, VolumeData, get_data, set_data}
use torus.Meta.Volumes.{change, get_inode}
use torus.Meta.Locks.{on_data}

module _ (sprint : ℕ → ℕ) where
  -- A call on the data that is there
  pub change_found :
      (s : Server) (vid : ℕ) (f : VolumeData → Outcome (Unit {0}) × VolumeData) (d : VolumeData)
      → get_data s (sprint vid) ≡ some d
      → change sprint s vid f ≡ ((f d).0, set_data s (sprint vid) (f d).1)
  unfolding change
  change_found s vid f d e =
      ap
        (on_data {B = Outcome (Unit {0}) × Server} (err Error.not_exist, s)
          (λ d. ((f d).0, set_data s (sprint vid) (f d).1)))
        e

  pub change_result :
      (s : Server) (vid : ℕ) (f : VolumeData → Outcome (Unit {0}) × VolumeData) (d : VolumeData)
      → get_data s (sprint vid) ≡ some d
      → (change sprint s vid f).0 ≡ (f d).0
  change_result s vid f d e = ap (λ r. r.0) (change_found s vid f d e)

  pub change_data :
      (s : Server) (vid : ℕ) (f : VolumeData → Outcome (Unit {0}) × VolumeData) (d : VolumeData)
      → get_data s (sprint vid) ≡ some d
      → get_data (change sprint s vid f).1 (sprint vid) ≡ some (f d).1
  unfolding get_data set_data
  change_data s vid f d e =
      ap (λ (r : Outcome (Unit {0}) × Server). get_data r.1 (sprint vid)) (change_found s vid f d e)
      ∙ find-put_self (sprint vid) (f d).1 s.keys

  pub get_inode_found :
      (s : Server) (vid : ℕ) (d : VolumeData)
      → get_data s (sprint vid) ≡ some d
      → get_inode sprint s vid ≡ ok d.id
  unfolding get_inode
  get_inode_found s vid d e =
      ap (on_data {B = Outcome INodeRef} (err Error.not_exist) (λ d. ok d.id)) e
