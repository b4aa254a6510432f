-- ===== src/Snapshot/Exclusion.antt =====
-- While no lock is taken away as an abandoned one, no two processes scan at once.
use repository_quality_guard.Prelude.{
  String, ℕ, ◌≡◌, refl, sym, ap, ◌∙◌, subst, Bool, true, false, none, some, eqb, arith, Bool-cases,
  inl, inr, is_some,
}
use repository_quality_guard.Snapshot.{SnapshotKey}
use repository_quality_guard.Snapshot.Flight.{
  Phase, starts, tries, occupied, sees, made, owns, scans, saves, leaves, ends, dead, FlightWorld,
  set_at, move, with_diff, FlightStep, first_hit, first_miss, first_error, makes, finds, reads,
  gone, waits, reuses, wait_error, writes_owner, loses, second_hit, second_miss, second_error,
  completes, scan_fails, stores, store_fails, releases, exits, dies, dies_writing, Calm, here, next,
  owner_of,
}

-- The process has made the directory and has not removed it yet.
abbrev pub is_inside : {R : Type 0} → Phase R → Bool
is_inside starts = false
is_inside tries = false
is_inside occupied = false
is_inside (sees owner) = false
is_inside made = true
is_inside owns = true
is_inside scans = true
is_inside (saves r revision) = true
is_inside (leaves result) = true
is_inside (ends result) = false
is_inside dead = false

module _ {R : Type 0} where
  record Excludes (w : FlightWorld R) : Type 0 where
    locked : (p : ℕ) → is_inside (w.phase p) ≡ true → is_some w.lock ≡ true
    alone : (p q : ℕ) → is_inside (w.phase p) ≡ true → is_inside (w.phase q) ≡ true → p ≡ q

  -- A process that goes on inside, or is outside behind the step.
  stays :
      (w w' : FlightWorld R) (p : ℕ) (phase : Phase R)
      → w'.phase ≡ set_at p phase w.phase
      → (is_inside phase ≡ true → is_inside (w.phase p) ≡ true)
      → (is_some w.lock ≡ true → is_some w'.lock ≡ true)
      → Excludes w
      → Excludes w'
  stays w w' p phase moved inside kept ex =
      let before : (q : ℕ) → is_inside (w'.phase q) ≡ true → is_inside (w.phase q) ≡ true = λ q h.
        let h' : is_inside (set_at p phase w.phase q) ≡ true =
          ap (λ f. is_inside (f q)) (sym moved) ∙ h in
        elim (Bool-cases (eqb q p)) [
          | inl self ↦
              let at : p ≡ q = ground (arith, self) in
              subst (λ t. is_inside (w.phase t) ≡ true) at (inside (rw self at h'))
          | inr other ↦ rw other at h'
        ] in
      record {
        locked = λ q h. kept (ex.locked q (before q h));
        alone = λ q t h k. ex.alone q t (before q h) (before t k);
      }

  -- The first one in.
  enters :
      (w : FlightWorld R) (p : ℕ)
      → w.lock ≡ none
      → Excludes w
      → Excludes (move p made (record w { lock = some none }))
  enters w p free ex =
      let empty : (q : ℕ) → is_inside (w.phase q) ≡ false = λ q.
        elim (Bool-cases (is_inside (w.phase q))) [
          | inl inside ↦ let held = ex.locked q inside in let off = ap is_some free in cc
          | inr outside ↦ outside
        ] in
      let own : (q : ℕ) → is_inside (set_at p made w.phase q) ≡ true → q ≡ p = λ q h.
        elim (Bool-cases (eqb q p)) [
          | inl self ↦ ground (arith, self)
          | inr other ↦ let h' = rw other at h in let off = empty q in cc
        ] in
      record { locked = λ q h. refl; alone = λ q t h k. own q h ∙ sym (own t k) }

  -- The last one out.
  goes :
      (w : FlightWorld R) (p : ℕ) (phase : Phase R)
      → is_inside (w.phase p) ≡ true
      → is_inside phase ≡ false
      → Excludes w
      → Excludes (move p phase (record w { lock = none }))
  goes w p phase inside outside ex =
      let empty : (q : ℕ) → is_inside (set_at p phase w.phase q) ≡ false = λ q.
        elim (Bool-cases (eqb q p)) [
          | inl self ↦ rw self outside
          | inr other ↦ rw other (elim (Bool-cases (is_inside (w.phase q))) [
            | inl also ↦ let e = ex.alone q p also inside in ground (arith, e, other)
            | inr off ↦ off
          ])
        ] in
      record { locked = λ q h. let off = empty q in cc; alone = λ q t h k. let off = empty q in cc }

module _ {R : Type 0} (digest : String → String) (separator root : String)
    (key_of : ℕ → SnapshotKey) (has_diff : R → Bool) where
  -- A step that leaves the lock alone.
  plain :
      (w w' : FlightWorld R) (p : ℕ) (phase before : Phase R)
      → w'.phase ≡ set_at p phase w.phase
      → w'.lock ≡ w.lock
      → w.phase p ≡ before
      → (is_inside phase ≡ true → is_inside before ≡ true)
      → Excludes w
      → Excludes w'
  plain w w' p phase before moved lock at inside ex =
      stays w w' p phase moved (λ h. ap is_inside at ∙ inside h) (λ h. ap is_some lock ∙ h) ex

  FlightStep-Excludes :
      {w w' : FlightWorld R}
      → FlightStep digest separator root key_of has_diff w w'
      → Excludes w
      → Excludes w'
  FlightStep-Excludes {w} {w'} (first_hit p r revision at h) ex =
      plain w w' p (ends (with_diff has_diff r revision)) starts refl refl at (λ i. i) ex
  FlightStep-Excludes {w} {w'} (first_miss p at h) ex =
      plain w w' p tries starts refl refl at (λ i. i) ex
  FlightStep-Excludes {w} {w'} (first_error p at h) ex =
      plain w w' p (ends none) starts refl refl at (λ i. i) ex
  FlightStep-Excludes {w} {w'} (finds p at h) ex =
      plain w w' p occupied tries refl refl at (λ i. i) ex
  FlightStep-Excludes {w} {w'} (reads p at) ex =
      plain w w' p (sees (owner_of w.lock)) occupied refl refl at (λ i. i) ex
  FlightStep-Excludes {w} {w'} (gone p at h) ex =
      plain w w' p tries (sees none) refl refl at (λ i. i) ex
  FlightStep-Excludes {w} {w'} (waits p owner at held h) ex =
      plain w w' p tries (sees owner) refl refl at (λ i. i) ex
  FlightStep-Excludes {w} {w'} (reuses p owner r revision at held h) ex =
      plain w w' p (ends (with_diff has_diff r revision)) (sees owner) refl refl at (λ i. i) ex
  FlightStep-Excludes {w} {w'} (wait_error p owner at held h) ex =
      plain w w' p (ends none) (sees owner) refl refl at (λ i. i) ex
  FlightStep-Excludes {w} {w'} (loses p at h) ex =
      plain w w' p (ends none) made refl refl at (λ i. refl) ex
  FlightStep-Excludes {w} {w'} (second_hit p r revision at h) ex =
      plain w w' p (leaves (some (r, revision))) owns refl refl at (λ i. refl) ex
  FlightStep-Excludes {w} {w'} (second_miss p at h) ex =
      plain w w' p scans owns refl refl at (λ i. refl) ex
  FlightStep-Excludes {w} {w'} (second_error p at h) ex =
      plain w w' p (leaves none) owns refl refl at (λ i. refl) ex
  FlightStep-Excludes {w} {w'} (completes p r revision at h) ex =
      plain w w' p (saves r revision) scans refl refl at (λ i. refl) ex
  FlightStep-Excludes {w} {w'} (scan_fails p at) ex =
      plain w w' p (leaves none) scans refl refl at (λ i. refl) ex
  FlightStep-Excludes {w} {w'} (stores p r revision at) ex =
      plain w w' p (leaves (some (r, revision))) (saves r revision) refl refl at (λ i. refl) ex
  FlightStep-Excludes {w} {w'} (store_fails p r revision at) ex =
      plain w w' p (leaves none) (saves r revision) refl refl at (λ i. refl) ex
  FlightStep-Excludes {w} (makes p at free) ex = enters w p free ex
  FlightStep-Excludes {w} {w'} (writes_owner p at h) ex =
      stays w w' p owns refl (λ i. ap is_inside at) (λ i. refl) ex
  FlightStep-Excludes {w} (releases p result at) ex =
      goes w p (ends result) (ap is_inside at) refl ex
  FlightStep-Excludes {w} (exits p result at) ex = record { locked = ex.locked; alone = ex.alone }
  FlightStep-Excludes {w} {w'} (dies_writing p r revision left at) ex =
      stays w w' p dead refl (λ i. cc) (λ i. i) ex
  FlightStep-Excludes {w} {w'} (dies p) ex = stays w w' p dead refl (λ i. cc) (λ i. i) ex

  Calm-Excludes :
      {w w' : FlightWorld R}
      → Calm digest separator root key_of has_diff w w'
      → Excludes w
      → Excludes w'
  Calm-Excludes here ex = ex
  Calm-Excludes (next r s) ex = FlightStep-Excludes s (Calm-Excludes r ex)

  -- From a world in which each process starts, and while no lock is taken away as an abandoned one: two
  -- processes that are between the making of the directory and its removal are one process, even if
  -- others die on the way.
  pub inside_once :
      {w w' : FlightWorld R} (p q : ℕ)
      → ((t : ℕ) → w.phase t ≡ starts)
      → Calm digest separator root key_of has_diff w w'
      → is_inside (w'.phase p) ≡ true
      → is_inside (w'.phase q) ≡ true
      → p ≡ q
  inside_once {w} p q fresh run h k =
      let begun : Excludes w = record {
        locked = λ t i. let off = ap is_inside (fresh t) in cc;
        alone = λ t u i j. let off = ap is_inside (fresh t) in cc;
      } in
      (Calm-Excludes run begun).alone p q h k
