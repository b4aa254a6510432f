-- ===== src/Snapshot/Reuse.antt =====
-- What a process returns has been scanned by a worker for the key of that very process.
use repository_quality_guard.Prelude.{
  String, ℕ, ◌≡◌, sym, ap, ◌∙◌, subst, Bool, false, ◌∷◌, Option, none, some, ◌==◌, eq_iff, eqb,
  arith, Bool-cases, inl, inr, Member, here, there,
}
use repository_quality_guard.Snapshot.{
  SnapshotKey, SnapshotStore, hit, load_file, load_snapshot, save_snapshot, identity_of, snapshot,
  File, put_file, temporary_path,
}
use repository_quality_guard.Snapshot.Keys.{load-save}
use repository_quality_guard.Snapshot.Flight.{
  Returned, Scanned, Phase, starts, tries, occupied, sees, made, owns, scans, saves, leaves, ends,
  dead, FlightWorld, set_at, move, with_diff, FlightStep, first_hit, first_miss, first_error, makes,
  finds, reads, gone, waits, reuses, wait_error, writes_owner, loses, second_hit, second_miss,
  second_error, completes, scan_fails, stores, store_fails, releases, exits, dies, dies_writing,
  Removes, removes_dead, removes_ownerless, Reach, next, removed,
}
use repository_quality_guard.Snapshot.Flight

module _ {R : Type 0} where
  abbrev pub IsScanned : SnapshotKey → Scanned R → Returned R → Type 0
  IsScanned key scanned none = Unit
  IsScanned key scanned (some (r, revision)) = Member (key, r, revision) scanned

  -- The report that a process carries has been scanned for the key.
  abbrev pub Carries : SnapshotKey → Scanned R → Phase R → Type 0
  Carries key scanned starts = Unit
  Carries key scanned tries = Unit
  Carries key scanned occupied = Unit
  Carries key scanned (sees owner) = Unit
  Carries key scanned made = Unit
  Carries key scanned owns = Unit
  Carries key scanned scans = Unit
  Carries key scanned (saves r revision) = Member (key, r, revision) scanned
  Carries key scanned (leaves result) = IsScanned key scanned result
  Carries key scanned (ends result) = IsScanned key scanned result
  Carries key scanned dead = Unit

  Carries-cons :
      (key : SnapshotKey) (new : SnapshotKey × R × String) (scanned : Scanned R) (phase : Phase R)
      → Carries key scanned phase
      → Carries key (new ∷ scanned) phase
  Carries-cons key new scanned starts c = tt
  Carries-cons key new scanned tries c = tt
  Carries-cons key new scanned occupied c = tt
  Carries-cons key new scanned (sees owner) c = tt
  Carries-cons key new scanned made c = tt
  Carries-cons key new scanned owns c = tt
  Carries-cons key new scanned scans c = tt
  Carries-cons key new scanned (saves r revision) c = there c
  Carries-cons key new scanned (leaves none) c = tt
  Carries-cons key new scanned (leaves (some (r, revision))) c = there c
  Carries-cons key new scanned (ends none) c = tt
  Carries-cons key new scanned (ends (some (r, revision))) c = there c
  Carries-cons key new scanned dead c = tt

module _ {R : Type 0} (digest : String → String) (separator root : String)
    (key_of : ℕ → SnapshotKey) (has_diff : R → Bool) where
  -- Each file that a key loads has been scanned for the key.
  abbrev pub IsStored : SnapshotStore R → Scanned R → Type 0
  IsStored store scanned =
      (key : SnapshotKey) (r : R) (revision : String)
      → load_snapshot digest separator root key store ≡ hit r revision
      → Member (key, r, revision) scanned

  pub record Inv (w : FlightWorld R) : Type 0 where
    pub stored : IsStored w.store w.scanned
    pub carried : (p : ℕ) → Carries (key_of p) w.scanned (w.phase p)

  carried-set_at :
      (scanned : Scanned R) (p : ℕ) (phase : Phase R) (phases : ℕ → Phase R)
      → ((q : ℕ) → Carries (key_of q) scanned (phases q))
      → Carries (key_of p) scanned phase
      → (q : ℕ) → Carries (key_of q) scanned (set_at p phase phases q)
  carried-set_at scanned p phase phases all own q = elim (Bool-cases (eqb q p)) [
    | inl self ↦
        let at : p ≡ q = ground (arith, self) in
        rw self (subst (λ t. Carries (key_of t) scanned phase) at own)
    | inr other ↦ rw other (all q)
  ]

  -- Moving one process without a report keeps the invariant, whatever becomes of the lock.
  Inv-move :
      (w : FlightWorld R) (p : ℕ) (phase : Phase R) (lock : Option (Option ℕ)) (running : ℕ → Bool)
      → Inv w
      → Carries (key_of p) w.scanned phase
      → Inv (move p phase (record w { lock = lock; running = running }))
  Inv-move w p phase lock running inv own = record {
    stored = inv.stored;
    carried = carried-set_at w.scanned p phase w.phase inv.carried own;
  }

  IsScanned-checked :
      (key : SnapshotKey) (scanned : Scanned R) (r : R) (revision : String)
      → Member (key, r, revision) scanned
      → IsScanned key scanned (with_diff has_diff r revision)
  IsScanned-checked key scanned r revision m = elim (Bool-cases (has_diff r)) [
    | inl complete ↦ rw complete m
    | inr partial ↦ rw partial tt
  ]

  IsStored-save :
      (store : SnapshotStore R) (scanned : Scanned R) (r : R) (revision : String)
      (key : SnapshotKey) (pid : ℕ)
      → IsStored store scanned
      → Member (key, r, revision) scanned
      → IsStored (save_snapshot digest separator root r revision key pid store) scanned
  unfolding load_snapshot
  IsStored-save store scanned r revision key pid stored m key' r' revision' loaded =
      let (again, emptied, untouched, only) =
        load-save digest separator root r revision key pid store in
      let id = identity_of digest separator root key in
      let id' = identity_of digest separator root key' in
      elim (Bool-cases (id' == id)) [
        | inl same ↦
            let (k, e, e') = only key' r' revision' (ap snapshot ((eq_iff id' id).0 same)) loaded in
            rw (sym k, sym e, sym e') m
        | inr apart ↦
            let kept =
              untouched (snapshot id')
                (λ e. let at : id' ≡ id = cc in let same = (eq_iff id' id).1 at in cc) (λ e. cc) in
            stored key' r' revision' (ap (load_file key') (sym kept) ∙ loaded)
      ]

  -- No temporary file is loaded.
  IsStored-temporary :
      (store : SnapshotStore R) (scanned : Scanned R) (key : SnapshotKey) (pid : ℕ)
      (left : Option (File R))
      → IsStored store scanned
      → IsStored (put_file (temporary_path digest separator root key pid) left store) scanned
  unfolding load_snapshot
  IsStored-temporary store scanned key pid left stored = stored

  -- A process that has found a snapshot.
  found :
      (w : FlightWorld R) (p : ℕ) (r : R) (revision : String)
      → Inv w
      → load_snapshot digest separator root (key_of p) w.store ≡ hit r revision
      → Inv (move p (ends (with_diff has_diff r revision)) w)
  found w p r revision inv h =
      let m = inv.stored (key_of p) r revision h in
      Inv-move w p (ends (with_diff has_diff r revision)) w.lock w.running inv
        (IsScanned-checked (key_of p) w.scanned r revision m)

  FlightStep-Inv :
      {w w' : FlightWorld R}
      → FlightStep digest separator root key_of has_diff w w'
      → Inv w
      → Inv w'
  FlightStep-Inv {w} (first_hit p r revision at h) inv = found w p r revision inv h
  FlightStep-Inv {w} (first_miss p at h) inv = Inv-move w p tries w.lock w.running inv tt
  FlightStep-Inv {w} (first_error p at h) inv = Inv-move w p (ends none) w.lock w.running inv tt
  FlightStep-Inv {w} (makes p at h) inv = Inv-move w p made (some none) w.running inv tt
  FlightStep-Inv {w} (finds p at h) inv = Inv-move w p occupied w.lock w.running inv tt
  FlightStep-Inv {w} (reads p at) inv =
      Inv-move w p (sees (Flight.owner_of w.lock)) w.lock w.running inv tt
  FlightStep-Inv {w} (gone p at h) inv = Inv-move w p tries w.lock w.running inv tt
  FlightStep-Inv {w} (waits p owner at held h) inv = Inv-move w p tries w.lock w.running inv tt
  FlightStep-Inv {w} (reuses p owner r revision at held h) inv = found w p r revision inv h
  FlightStep-Inv {w} (wait_error p owner at held h) inv =
      Inv-move w p (ends none) w.lock w.running inv tt
  FlightStep-Inv {w} (writes_owner p at h) inv = Inv-move w p owns (some (some p)) w.running inv tt
  FlightStep-Inv {w} (loses p at h) inv = Inv-move w p (ends none) w.lock w.running inv tt
  FlightStep-Inv {w} (second_hit p r revision at h) inv =
      Inv-move w p (leaves (some (r, revision))) w.lock w.running inv
        (inv.stored (key_of p) r revision h)
  FlightStep-Inv {w} (second_miss p at h) inv = Inv-move w p scans w.lock w.running inv tt
  FlightStep-Inv {w} (second_error p at h) inv = Inv-move w p (leaves none) w.lock w.running inv tt
  FlightStep-Inv {w} (completes p r revision at h) inv =
      let new : SnapshotKey × R × String = (key_of p, r, revision) in
      record {
        stored = λ key r' revision' loaded. there (inv.stored key r' revision' loaded);
        carried =
            carried-set_at (new ∷ w.scanned) p (saves r revision) w.phase
              (λ q. Carries-cons (key_of q) new w.scanned (w.phase q) (inv.carried q)) here;
      }
  FlightStep-Inv {w} (scan_fails p at) inv = Inv-move w p (leaves none) w.lock w.running inv tt
  FlightStep-Inv {w} (stores p r revision at) inv =
      let own = subst (Carries (key_of p) w.scanned) at (inv.carried p) in
      record {
        stored = IsStored-save w.store w.scanned r revision (key_of p) p inv.stored own;
        carried = carried-set_at w.scanned p (leaves (some (r, revision))) w.phase inv.carried own;
      }
  FlightStep-Inv {w} (store_fails p r revision at) inv = record {
    stored = IsStored-temporary w.store w.scanned (key_of p) p none inv.stored;
    carried = carried-set_at w.scanned p (leaves none) w.phase inv.carried tt;
  }
  FlightStep-Inv {w} (dies_writing p r revision left at) inv = record {
    stored = IsStored-temporary w.store w.scanned (key_of p) p left inv.stored;
    carried = carried-set_at w.scanned p dead w.phase inv.carried tt;
  }
  FlightStep-Inv {w} (releases p result at) inv =
      Inv-move w p (ends result) none w.running inv
        (subst (Carries (key_of p) w.scanned) at (inv.carried p))
  FlightStep-Inv {w} (exits p result at) inv = record { stored = inv.stored; carried = inv.carried }
  FlightStep-Inv {w} (dies p) inv = Inv-move w p dead w.lock (set_at p false w.running) inv tt

  Removes-Inv :
      {w w' : FlightWorld R} → Removes digest separator root key_of has_diff w w' → Inv w → Inv w'
  Removes-Inv {w} (removes_dead p owner at stopped) inv = Inv-move w p tries none w.running inv tt
  Removes-Inv {w} (removes_ownerless p at there') inv = Inv-move w p tries none w.running inv tt

  Reach-Inv :
      {w w' : FlightWorld R} → Reach digest separator root key_of has_diff w w' → Inv w → Inv w'
  Reach-Inv Flight.here inv = inv
  Reach-Inv (next r s) inv = FlightStep-Inv s (Reach-Inv r inv)
  Reach-Inv (removed r s) inv = Removes-Inv s (Reach-Inv r inv)

  -- From a world in which no process has a report yet, and each snapshot of the cache has been scanned
  -- for the key that loads it: whatever the processes do, one that returns a report returns one that a
  -- worker has scanned for its own key, with that revision, its own or that of another process.
  pub returned-Member :
      {w w' : FlightWorld R} (p : ℕ) (r : R) (revision : String)
      → ((q : ℕ) → w.phase q ≡ starts)
      → IsStored w.store w.scanned
      → Reach digest separator root key_of has_diff w w'
      → w'.phase p ≡ ends (some (r, revision))
      → Member (key_of p, r, revision) w'.scanned
  returned-Member {w} {w'} p r revision fresh stored run at =
      let begun : Inv w = record {
        stored = stored;
        carried = λ q. subst (Carries (key_of q) w.scanned) (sym (fresh q)) tt;
      } in
      let inv = Reach-Inv run begun in subst (Carries (key_of p) w'.scanned) at (inv.carried p)
