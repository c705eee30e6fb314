-- ===== src/Meta/Exclusion.antt =====
-- The lock of a volume as its clients see it: `Lock`, `SyncINode`, `Unlock` and `GetINode` of block/temp.go.
use torus.Base.{
  ℕ, ◌≡◌, ◌≢◌, sym, ap, subst, ◌∙◌, Bool, List, [], ◌∷◌, Option, none, some, Option-cases, inl, inr,
  arith, Outcome, ok, err, Error,
}
use torus.Refs.{INodeRef}
use torus.Peers.{Uuid}
use torus.Meta.{Server, VolumeData, get_data, set_data}
use torus.Meta.Volumes.{
  change, locked_by, lock, get_inode, synced_to, sync_inode, unlocked_by, unlock,
}
use torus.Meta.Runs.{Call, apply, run}
use torus.Meta.Stops.{HasStopped, run-returns}
use torus.Meta.Locks.{IsHeld, on_data}
use torus.Meta.Found.{change_result, change_data, get_inode_found}
use torus.Meta.Holding.{apply-IsHeld}

module _ (sprint : ℕ → ℕ) where
  -- The client `u` alone has the volume: nobody gets the lock, only `u` can change the inode or
  -- give the lock back, and `u` can do both.
  pub record IsAlone (u : Uuid) (i : INodeRef) (vid : ℕ) (t : Server) : Type 0 where
    lock_fails : (w : Uuid) → (lock sprint w t vid).0 ≡ err Error.locked
    sync_fails :
        (w : Uuid) (j : INodeRef) → w ≢ u → (sync_inode sprint w t vid j).0 ≡ err Error.locked
    unlock_fails : (w : Uuid) → w ≢ u → (unlock sprint w t vid).0 ≡ err Error.locked
    inode_kept : get_inode sprint t vid ≡ ok i
    sync_works :
        (j : INodeRef)
        → ((sync_inode sprint u t vid j).0 ≡ ok tt)
          × (get_inode sprint (sync_inode sprint u t vid j).1 vid ≡ ok j)

  -- The lock is free again, and the inode is as it was.
  pub record IsFree (u : Uuid) (i : INodeRef) (vid : ℕ) (t : Server) : Type 0 where
    unlock_works : (unlock sprint u t vid).0 ≡ ok tt
    inode_stays : get_inode sprint (unlock sprint u t vid).1 vid ≡ ok i
    lock_works : (w : Uuid) → (lock sprint w (unlock sprint u t vid).1 vid).0 ≡ ok tt

  IsHeld-IsAlone :
      (u : Uuid) (i : INodeRef) (vid : ℕ) (t : Server)
      → u ≢ 0
      → IsHeld u i (sprint vid) t
      → IsAlone u i vid t
  unfolding lock sync_inode unlock
  IsHeld-IsAlone u i vid t pos (d, got, l, n) = record {
    lock_fails = λ w. change_result sprint t vid (locked_by w) d got ∙ taken w;
    sync_fails = λ w j ne. change_result sprint t vid (synced_to w j) d got ∙ refused w j ne;
    unlock_fails = λ w ne. change_result sprint t vid (unlocked_by w) d got ∙ kept w ne;
    inode_kept = get_inode_found sprint t vid d got ∙ ap ok n;
    sync_works = λ j. (
      change_result sprint t vid (synced_to u j) d got ∙ allowed j,
      get_inode_found sprint _ vid _ (change_data sprint t vid (synced_to u j) d got)
          ∙ ap ok (moved j),
    );
  }
    where
      taken : (w : Uuid) → (locked_by w d).0 ≡ err Error.locked
      taken w = ground arith

      refused : (w : Uuid) (j : INodeRef) → w ≢ u → (synced_to w j d).0 ≡ err Error.locked
      refused w j ne = ground arith

      kept : (w : Uuid) → w ≢ u → (unlocked_by w d).0 ≡ err Error.locked
      kept w ne = ground arith

      allowed : (j : INodeRef) → (synced_to u j d).0 ≡ ok tt
      allowed j = ground arith

      moved : (j : INodeRef) → (synced_to u j d).1.id ≡ j
      moved j = ground arith

  IsHeld-IsFree :
      (u : Uuid) (i : INodeRef) (vid : ℕ) (t : Server)
      → IsHeld u i (sprint vid) t
      → IsFree u i vid t
  unfolding lock unlock
  IsHeld-IsFree u i vid t (d, got, l, n) =
      let after = change_data sprint t vid (unlocked_by u) d got in
      record {
        unlock_works = change_result sprint t vid (unlocked_by u) d got ∙ released;
        inode_stays = get_inode_found sprint _ vid _ after ∙ ap ok (same ∙ n);
        lock_works = λ w. change_result sprint _ vid (locked_by w) _ after ∙ taken w;
      }
    where
      released : (unlocked_by u d).0 ≡ ok tt
      released = ground arith

      same : (unlocked_by u d).1.id ≡ d.id
      same = ground arith

      taken : (w : Uuid) → (locked_by w (unlocked_by u d).1).0 ≡ ok tt
      taken w = ground arith

  -- A lock that succeeds makes the client the holder.
  lock-IsHeld :
      (u : Uuid) (i : INodeRef) (vid : ℕ) (s : Server)
      → (lock sprint u s vid).0 ≡ ok tt
      → get_inode sprint s vid ≡ ok i
      → IsHeld u i (sprint vid) (lock sprint u s vid).1
  unfolding lock
  lock-IsHeld u i vid s h n = elim (Option-cases (get_data s (sprint vid))) [
    | inl e ↦
        let missing : change sprint s vid (locked_by u) ≡ (err Error.not_exist, s) =
          ap
            (on_data {B = Outcome (Unit {0}) × Server} (err Error.not_exist, s)
              (λ d. ((locked_by u d).0, set_data s (sprint vid) (locked_by u d).1)))
            e in
        let wrong : err Error.not_exist ≡ ok tt =
          sym (ap (λ (r : Outcome (Unit {0}) × Server). r.0) missing) ∙ h in
        absurd cc
    | inr (d, e) ↦
        let free : (locked_by u d).0 ≡ ok tt =
          sym (change_result sprint s vid (locked_by u) d e) ∙ h in
        let same : ok d.id ≡ ok i = sym (get_inode_found sprint s vid d e) ∙ n in
        let (mine, stays) = got_lock d free in
        let number : d.id ≡ i = cc in
        ((locked_by u d).1, change_data sprint s vid (locked_by u) d e, mine, stays ∙ number)
  ]
    where
      got_lock :
          (d : VolumeData)
          → (locked_by u d).0 ≡ ok tt
          → ((locked_by u d).1.locked ≡ u) × ((locked_by u d).1.id ≡ d.id)
      got_lock d free = ground arith

  -- Every call is of another client.
  abbrev pub ByOthers : Uuid → List (Uuid × Call) → Type 0
  ByOthers u [] = Unit
  ByOthers u ((w, c) ∷ cs) = (w ≢ u) × ByOthers u cs

  module _ (require : Bool → Outcome (Unit {0})) where
    run-IsHeld :
        (u : Uuid) (i : INodeRef) (x : ℕ) (cs : List (Uuid × Call)) (s t : Server)
        → u ≢ 0
        → ByOthers u cs
        → run sprint require cs s ≡ some t
        → IsHeld u i x s
        → IsHeld u i x t
    unfolding run
    run-IsHeld u i x [] s t pos others e h = subst (IsHeld u i x) (let same : s ≡ t = cc in same) h
    run-IsHeld u i x ((w, c) ∷ cs) s t pos others e h =
        elim (Option-cases (apply sprint require w s c)) [
          | inl stopped ↦ absurd (
              let wrong : none ≡ some t =
                sym (
                  ap
                    (λ (o : Option Server). elim o [
                      | none ↦ none
                      | some y ↦ run sprint require cs y
                    ])
                    stopped)
                ∙ e in
              cc)
          | inr (s', on) ↦
              run-IsHeld u i x cs s' t pos others.1
                (sym (
                    ap
                      (λ (o : Option Server). elim o [
                        | none ↦ none
                        | some y ↦ run sprint require cs y
                      ])
                      on)
                  ∙ e)
                (apply-IsHeld sprint require u w i x s s' c pos others.0 on h)
        ]

    -- What the holder of a lock has after calls of others that do not stop the server
    after_others :
        (u : Uuid) (i : INodeRef) (vid : ℕ) (s : Server) (cs : List (Uuid × Call))
        → u ≢ 0
        → (lock sprint u s vid).0 ≡ ok tt
        → get_inode sprint s vid ≡ ok i
        → ByOthers u cs
        → ¬ HasStopped sprint require cs (lock sprint u s vid).1
        → (t : Server) × (run sprint require cs (lock sprint u s vid).1 ≡ some t)
          × IsHeld u i (sprint vid) t
    after_others u i vid s cs pos h n others alive =
        let (t, ran) = run-returns sprint require cs (lock sprint u s vid).1 alive in
        (t, ran, run-IsHeld u i (sprint vid) cs _ t pos others ran (lock-IsHeld u i vid s h n))

    -- After a Lock of a client with a UUID that succeeds, let other clients make any sequence of
    -- calls of which none stops the server (a DeleteVolume by the holder of that volume's lock, a
    -- next SetRing that some listener does not take, an unsubscription of a channel that is no
    -- listener, or a new volume whose number is refused). Then all of them return, and afterwards:
    -- no Lock succeeds, SyncINode and Unlock of the others fail with ErrLocked, GetINode still
    -- gives the inode from before, and a SyncINode of the holder succeeds and is seen by GetINode.
    pub lock-IsAlone :
        (u : Uuid) (i : INodeRef) (vid : ℕ) (s : Server) (cs : List (Uuid × Call))
        → u ≢ 0
        → (lock sprint u s vid).0 ≡ ok tt
        → get_inode sprint s vid ≡ ok i
        → ByOthers u cs
        → ¬ HasStopped sprint require cs (lock sprint u s vid).1
        → (t : Server) × (run sprint require cs (lock sprint u s vid).1 ≡ some t)
          × IsAlone u i vid t
    lock-IsAlone u i vid s cs pos h n others alive =
        let (t, ran, held) = after_others u i vid s cs pos h n others alive in
        (t, ran, IsHeld-IsAlone u i vid t pos held)

    -- After a Lock of a client with a UUID that succeeds, let other clients make any sequence of
    -- calls of which none stops the server (a DeleteVolume by the holder of that volume's lock, a
    -- next SetRing that some listener does not take, an unsubscription of a channel that is no
    -- listener, or a new volume whose number is refused). Then all of them return, the holder's
    -- Unlock succeeds and keeps the inode, and the next Lock of any client succeeds.
    pub lock-IsFree :
        (u : Uuid) (i : INodeRef) (vid : ℕ) (s : Server) (cs : List (Uuid × Call))
        → u ≢ 0
        → (lock sprint u s vid).0 ≡ ok tt
        → get_inode sprint s vid ≡ ok i
        → ByOthers u cs
        → ¬ HasStopped sprint require cs (lock sprint u s vid).1
        → (t : Server) × (run sprint require cs (lock sprint u s vid).1 ≡ some t) × IsFree u i vid t
    lock-IsFree u i vid s cs pos h n others alive =
        let (t, ran, held) = after_others u i vid s cs pos h n others alive in
        (t, ran, IsHeld-IsFree u i vid t held)
