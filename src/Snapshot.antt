-- ===== src/Snapshot.antt =====
-- scan_snapshot.py: the key of a snapshot of a scan, the file that keeps it, and what reading the file
-- accepts. A report is a value of any type `R`.
pub mod Keys
pub mod Flight
pub mod Reuse
pub mod Exclusion
pub mod Race
pub mod Tests
use repository_quality_guard.Prelude.{
  String, ℕ, eqb, Bool, true, false, not, ◌&&◌, ◌||◌, List, [], ◌∷◌, Option, none, some, ◌==◌,
  starts_with, join, map, all, contains, Dict, find, is_some, if◌then◌else◌,
}

-- `_SnapshotKey`
pub record SnapshotKey : Type 0 where
  pub profile : String
  pub base_revision : String
  pub staged : Bool
  pub focus_files : List String
  pub release_seal : String
  pub fingerprint : String

-- The values of a payload.
pub data PayloadValue (R : Type 0) : Type 0 where
  text : String → PayloadValue R
  flag : Bool → PayloadValue R
  texts : List String → PayloadValue R
  report : R → PayloadValue R

-- What `pickle.load` finds in a file: a dictionary, another value, nothing that it can read, the
-- name of a module that is not there, or what makes it raise another exception.
pub data File (R : Type 0) : Type 0 where
  pickled : Dict (PayloadValue R) → File R
  other_value : File R
  unreadable : File R
  missing_module : String → File R
  breaking : File R

-- A hit, a miss, or an exception that is passed on.
pub data Loaded (R : Type 0) : Type 0 where
  hit : R → String → Loaded R
  miss : Loaded R
  load_error : Loaded R

-- The names of the files of the cache: `<identity>.pkl`, and `<identity>.pkl.<pid>.tmp`, which is no
-- name of the first kind.
pub data CachePath : Type 0 where
  snapshot : String → CachePath
  temporary : String → ℕ → CachePath

-- The files of the cache by their names.
abbrev pub SnapshotStore : Type 0 → Type 0
SnapshotStore R = CachePath → Option (File R)

abbrev pub same_flag : Bool → Bool → Bool
same_flag true b = b
same_flag false b = not b

abbrev pub same_texts : List String → List String → Bool
same_texts [] [] = true
same_texts [] (t ∷ ts) = false
same_texts (s ∷ ss) [] = false
same_texts (s ∷ ss) (t ∷ ts) = s == t && same_texts ss ts

abbrev pub snapshot_schema : String
snapshot_schema = "repository-quality-guard/current-scan-v3"

module _ {R : Type 0} where
  -- `==` on the values that a key is made of
  abbrev pub same_value : PayloadValue R → PayloadValue R → Bool
  same_value (text s) (text t) = s == t
  same_value (flag a) (flag b) = same_flag a b
  same_value (texts s) (texts t) = same_texts s t
  same_value _ _ = false

  abbrev pub matches_entry : Option (PayloadValue R) → PayloadValue R → Bool
  matches_entry none value = false
  matches_entry (some found) value = same_value found value

  unfoldable pub expected : SnapshotKey → Dict (PayloadValue R)
  expected key =
      ("schema", text snapshot_schema)
      ∷ ("profile", text key.profile)
      ∷ ("base_revision", text key.base_revision)
      ∷ ("staged", flag key.staged)
      ∷ ("focus_files", texts key.focus_files)
      ∷ ("release_seal", text key.release_seal)
      ∷ ("fingerprint", text key.fingerprint)
      ∷ []

  abbrev pub names : Dict (PayloadValue R) → List String
  names entries = map (λ e. e.0) entries

  -- `set(payload) == {*expected, "report", "revision"}`
  unfoldable pub has_names : SnapshotKey → Dict (PayloadValue R) → Bool
  unfolding expected
  has_names key payload =
      let wanted = "report" ∷ "revision" ∷ names (expected key) in
      all (λ n. contains n wanted) (names payload) && all (λ n. contains n (names payload)) wanted

  -- The report and the revision, if they have their types.
  abbrev pub result_of : Option (PayloadValue R) → Option (PayloadValue R) → Option (R × String)
  result_of (some (report r)) (some (text revision)) = some (r, revision)
  result_of _ _ = none

  -- The checks of `_load_snapshot` on a dictionary.
  unfoldable pub load_payload : SnapshotKey → Dict (PayloadValue R) → Option (R × String)
  unfolding has_names expected
  load_payload key payload =
      if has_names key payload && all (λ (n, v). matches_entry (find n payload) v) (expected key)
      then result_of (find "report" payload) (find "revision" payload)
      else none

  abbrev pub loaded_of : Option (R × String) → Loaded R
  loaded_of none = miss
  loaded_of (some (r, revision)) = hit r revision

  unfoldable pub load_file : SnapshotKey → Option (File R) → Loaded R
  load_file key none = miss
  load_file key (some (pickled payload)) = loaded_of (load_payload key payload)
  load_file key (some other_value) = miss
  load_file key (some unreadable) = miss
  load_file key (some (missing_module name)) =
      if name == "repo_quality_guard" || starts_with name "repo_quality_guard."
      then miss
      else load_error
  load_file key (some breaking) = load_error

  -- The payload of `_save_snapshot`.
  unfoldable pub payload_of : R → String → SnapshotKey → Dict (PayloadValue R)
  payload_of r revision key =
      ("schema", text snapshot_schema)
      ∷ ("profile", text key.profile)
      ∷ ("base_revision", text key.base_revision)
      ∷ ("staged", flag key.staged)
      ∷ ("focus_files", texts key.focus_files)
      ∷ ("release_seal", text key.release_seal)
      ∷ ("fingerprint", text key.fingerprint)
      ∷ ("revision", text revision)
      ∷ ("report", report r)
      ∷ []

abbrev pub flag_text : Bool → String
flag_text true = "True"
flag_text false = "False"

-- `_snapshot_path`: the digest is a parameter, and so is the text that joins its parts.
unfoldable pub identity_of : (String → String) → String → String → SnapshotKey → String
unfolding join
identity_of digest separator root key =
    digest (join separator (root ∷ key.profile ∷ key.base_revision ∷ flag_text key.staged ∷ []))

abbrev pub snapshot_path : (String → String) → String → String → SnapshotKey → CachePath
snapshot_path digest separator root key = snapshot (identity_of digest separator root key)

-- `path.with_name(path.name + f".{os.getpid()}.tmp")`
abbrev pub temporary_path : (String → String) → String → String → SnapshotKey → ℕ → CachePath
temporary_path digest separator root key pid = temporary (identity_of digest separator root key) pid

abbrev pub same_path : CachePath → CachePath → Bool
same_path (snapshot i) (snapshot j) = i == j
same_path (temporary i p) (temporary j q) = i == j && eqb p q
same_path (snapshot i) (temporary j q) = false
same_path (temporary i p) (snapshot j) = false

module _ {R : Type 0} where
  -- The store with a file, or with none, at a path.
  abbrev pub put_file : CachePath → Option (File R) → SnapshotStore R → SnapshotStore R
  put_file path file store other = if same_path other path then file else store other

  -- `_load_snapshot`
  unfoldable pub load_snapshot :
      (String → String) → String → String → SnapshotKey → SnapshotStore R → Loaded R
  load_snapshot digest separator root key store =
      load_file key (store (snapshot_path digest separator root key))

  -- `temporary.replace(path)`
  abbrev pub replace_file : CachePath → CachePath → SnapshotStore R → SnapshotStore R
  replace_file from to store = put_file from none (put_file to (store from) store)

  -- `_save_snapshot` of the process `pid`, where no step of it fails: the temporary file is written, it
  -- replaces the file at the path, and its name is removed.
  unfoldable pub save_snapshot :
      (String → String)
      → String
      → String
      → R
      → String
      → SnapshotKey
      → ℕ
      → SnapshotStore R
      → SnapshotStore R
  save_snapshot digest separator root r revision key pid store =
      let path = snapshot_path digest separator root key in
      let temporary_file = temporary_path digest separator root key pid in
      put_file temporary_file none (
        replace_file temporary_file path
          (put_file temporary_file (some (pickled (payload_of r revision key))) store))
