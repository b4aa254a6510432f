-- ===== src/Snapshot/Tests.antt =====
-- A cache that is empty at first, and the theorems on scan_snapshot.py at it.
use repository_quality_guard.Prelude.{
  String, ℕ, ◌≡◌, ◌≢◌, refl, Bool, true, false, [], ◌∷◌, none, some, Member, arith,
}
use repository_quality_guard.Snapshot.{
  SnapshotKey, SnapshotStore, hit, miss, load_file, snapshot_path, load_snapshot, save_snapshot,
  CachePath, temporary_path,
}
use repository_quality_guard.Snapshot.Keys.{load-save}
use repository_quality_guard.Snapshot.Flight.{
  starts, tries, sees, made, owns, scans, leaves, ends, FlightWorld, move, saves, first_miss, makes,
  writes_owner, second_miss, completes, stores, releases, Reach, Calm,
}
use repository_quality_guard.Snapshot.Reuse.{returned-Member}
use repository_quality_guard.Snapshot.Exclusion.{inside_once}
use repository_quality_guard.Snapshot.Race.{two_owners}

abbrev digest : String → String
digest s = s

abbrev key : SnapshotKey
key = record {
  profile = "p";
  base_revision = "main";
  staged = false;
  focus_files = [];
  release_seal = "s";
  fingerprint = "f";
}

abbrev empty : SnapshotStore ℕ
empty path = none

load-save_example :
    (load_snapshot digest "," "/r" key (save_snapshot digest "," "/r" 7 "abc" key 0 empty)
      ≡ hit 7 "abc")
    × (save_snapshot digest "," "/r" 7 "abc" key 0 empty (temporary_path digest "," "/r" key 0)
        ≡ none)
    × ((path : CachePath)
        → path ≢ snapshot_path digest "," "/r" key
        → path ≢ temporary_path digest "," "/r" key 0
        → save_snapshot digest "," "/r" 7 "abc" key 0 empty path ≡ empty path)
    × ((key' : SnapshotKey) (r' : ℕ) (revision' : String)
        → snapshot_path digest "," "/r" key' ≡ snapshot_path digest "," "/r" key
        → load_snapshot digest "," "/r" key' (save_snapshot digest "," "/r" 7 "abc" key 0 empty)
          ≡ hit r' revision'
        → (key ≡ key') × (7 ≡ r') × ("abc" ≡ revision'))
load-save_example = load-save digest "," "/r" 7 "abc" key 0 empty

abbrev key_of : ℕ → SnapshotKey
key_of p = key

abbrev complete : ℕ → Bool
complete r = true

abbrev begin : FlightWorld ℕ
begin = record {
  store = empty;
  lock = none;
  phase = λ p. starts;
  running = λ p. true;
  scanned = [];
}

-- The worlds on the way of the first process.
abbrev w₁ : FlightWorld ℕ
w₁ = move 0 tries begin

abbrev w₂ : FlightWorld ℕ
w₂ = move 0 made (record w₁ { lock = some none })

abbrev w₃ : FlightWorld ℕ
w₃ = move 0 owns (record w₂ { lock = some (some 0) })

abbrev w₄ : FlightWorld ℕ
w₄ = move 0 scans w₃

abbrev w₅ : FlightWorld ℕ
w₅ = move 0 (saves 7 "abc") (record w₄ { scanned = (key, 7, "abc") ∷ [] })

abbrev w₆ : FlightWorld ℕ
w₆ =
    move 0 (leaves (some (7, "abc")))
      (record w₅ { store = save_snapshot digest "," "/r" 7 "abc" key 0 empty })

abbrev w₇ : FlightWorld ℕ
w₇ = move 0 (ends (some (7, "abc"))) (record w₆ { lock = none })

nothing_loaded : load_snapshot digest "," "/r" key empty ≡ miss
unfolding load_snapshot load_file
nothing_loaded = refl

nothing_stored :
    (k : SnapshotKey) (r : ℕ) (revision : String)
    → load_snapshot digest "," "/r" k empty ≡ hit r revision
    → Member {A = SnapshotKey × ℕ × String} (k, r, revision) []
unfolding load_snapshot load_file
nothing_stored k r revision h = cc

zero-ne-one : ◌≢◌ {A = ℕ} 0 1
zero-ne-one e = absurd (omega (arith, e))

zero-ne-two : ◌≢◌ {A = ℕ} 0 2
zero-ne-two e = absurd (omega (arith, e))

one-ne-two : ◌≢◌ {A = ℕ} 1 2
one-ne-two e = absurd (omega (arith, e))

calm_run : Calm digest "," "/r" key_of complete begin w₃
calm_run =
    Calm.next
      (Calm.next (Calm.next Calm.here (first_miss 0 refl nothing_loaded)) (makes 0 refl refl))
      (writes_owner 0 refl refl)

inside_once_example : ◌≡◌ {A = ℕ} 0 0
inside_once_example =
    inside_once digest "," "/r" key_of complete {w = begin} {w' = w₃} 0 0 (λ t. refl) calm_run refl
      refl

whole_run : Reach digest "," "/r" key_of complete begin w₇
whole_run =
    let r₁ : Reach digest "," "/r" key_of complete begin w₁ =
      Reach.next Reach.here (first_miss 0 refl nothing_loaded) in
    let r₂ : Reach digest "," "/r" key_of complete begin w₂ = Reach.next r₁ (makes 0 refl refl) in
    let r₃ : Reach digest "," "/r" key_of complete begin w₃ =
      Reach.next r₂ (writes_owner 0 refl refl) in
    let r₄ : Reach digest "," "/r" key_of complete begin w₄ =
      Reach.next r₃ (second_miss 0 refl nothing_loaded) in
    let r₅ : Reach digest "," "/r" key_of complete begin w₅ =
      Reach.next r₄ (completes 0 7 "abc" refl refl) in
    let r₆ : Reach digest "," "/r" key_of complete begin w₆ =
      Reach.next r₅ (stores 0 7 "abc" refl) in
    Reach.next r₆ (releases 0 (some (7, "abc")) refl)

returned-Member_example :
    Member {A = SnapshotKey × ℕ × String} (key, 7, "abc") ((key, 7, "abc") ∷ [])
returned-Member_example =
    returned-Member digest "," "/r" key_of complete {w = begin} {w' = w₇} 0 7 "abc" (λ q. refl)
      nothing_stored whole_run refl

-- The first process is about to leave, the second one waits, and the third one has read the owner.
abbrev crowded : FlightWorld ℕ
crowded = move 1 tries (move 2 (sees (some 0)) w₆)

two_owners_example :
    (w' : FlightWorld ℕ) × (Reach digest "," "/r" key_of complete crowded w'
      × (w'.phase 1 ≡ owns)
      × (w'.phase 2 ≡ owns))
two_owners_example =
    two_owners digest "," "/r" key_of complete crowded 0 1 2 (some (7, "abc")) zero-ne-one
      zero-ne-two one-ne-two refl refl refl
