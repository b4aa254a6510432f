-- ===== src/Snapshot/Keys.antt =====
-- What was saved is loaded under the same key, and under no other.
use repository_quality_guard.Prelude.{
  String, ◌≡◌, ◌≢◌, ◌↔◌, refl, sym, ◌∙◌, Bool, true, false, ◌&&◌, List, [], ◌∷◌, Option, none, some,
  ◌==◌, ap, ℕ, eq_iff, arith, Bool-cases, inl, inr, if◌then◌else◌,
}
use repository_quality_guard.Snapshot.{
  SnapshotKey, SnapshotStore, hit, loaded_of, same_flag, same_texts, load_payload, load_file,
  payload_of, snapshot_path, load_snapshot, save_snapshot, CachePath, snapshot, temporary,
  same_path, temporary_path, pickled,
}

same_flag_iff : (a b : Bool) → (same_flag a b ≡ true) ↔ (a ≡ b)
same_flag_iff true b = (λ h. sym h, λ h. sym h)
same_flag_iff false true = (λ h. cc, λ h. cc)
same_flag_iff false false = (λ h. refl, λ h. refl)

same_texts_iff : (ss ts : List String) → (same_texts ss ts ≡ true) ↔ (ss ≡ ts)
same_texts_iff [] [] = (λ h. refl, λ h. refl)
same_texts_iff [] (t ∷ ts) = (λ h. cc, λ h. cc)
same_texts_iff (s ∷ ss) [] = (λ h. cc, λ h. cc)
same_texts_iff (s ∷ ss) (t ∷ ts) =
    let first = eq_iff s t in
    let rest = same_texts_iff ss ts in
    (λ h. ground (arith, h, first, rest), λ h. ground (arith, h, first, rest))

same_key : SnapshotKey → SnapshotKey → Bool
same_key a b =
    a.profile == b.profile
    && (a.base_revision == b.base_revision
        && (same_flag a.staged b.staged
            && (same_texts a.focus_files b.focus_files
                && (a.release_seal == b.release_seal && a.fingerprint == b.fingerprint))))

same_key_iff : (a b : SnapshotKey) → (same_key a b ≡ true) ↔ (a ≡ b)
unfolding same_key
same_key_iff a b =
    let p = eq_iff a.profile b.profile in
    let r = eq_iff a.base_revision b.base_revision in
    let s = same_flag_iff a.staged b.staged in
    let f = same_texts_iff a.focus_files b.focus_files in
    let l = eq_iff a.release_seal b.release_seal in
    let n = eq_iff a.fingerprint b.fingerprint in
    (λ h. ground (arith, h, p, r, s, f, l, n), λ h. ground (arith, h, p, r, s, f, l, n))

same_path_iff : (a b : CachePath) → (same_path a b ≡ true) ↔ (a ≡ b)
same_path_iff (snapshot i) (snapshot j) =
    let e = eq_iff i j in (λ h. ap snapshot (e.0 h), λ h. let g : i ≡ j = cc in e.1 g)
same_path_iff (snapshot i) (temporary j q) = (λ h. cc, λ h. cc)
same_path_iff (temporary i p) (snapshot j) = (λ h. cc, λ h. cc)
same_path_iff (temporary i p) (temporary j q) =
    let e = eq_iff i j in
    (
      λ h.
          let at : i ≡ j = e.0 (ground (arith, h)) in
          let by : p ≡ q = ground (arith, h) in rw (at, by) refl,
      λ h.
          let at : i ≡ j = cc in
          let by : p ≡ q = cc in let same = e.1 at in ground (arith, same, by),
    )

same_path_refl : (a : CachePath) → same_path a a ≡ true
same_path_refl a = (same_path_iff a a).1 refl

apart : (a b : CachePath) → a ≢ b → same_path a b ≡ false
apart a b ne = elim (Bool-cases (same_path a b)) [
  | inl same ↦ absurd (ne ((same_path_iff a b).0 same))
  | inr off ↦ off
]

module _ {R : Type 0} where
  load_payload-payload_of :
      (r : R) (revision : String) (key key' : SnapshotKey)
      → load_payload key' (payload_of r revision key)
        ≡ (if same_key key key' then some (r, revision) else none)
  unfolding load_payload payload_of same_key
  load_payload-payload_of r revision key key' = ground arith

  -- What was saved under one key is loaded under a key exactly when it is that one.
  pub load_payload-payload_of_iff :
      (r r' : R) (revision revision' : String) (key key' : SnapshotKey)
      → (load_payload key' (payload_of r revision key) ≡ some (r', revision'))
        ↔ ((key ≡ key') × (r ≡ r') × (revision ≡ revision'))
  load_payload-payload_of_iff r r' revision revision' key key' =
      let read = load_payload-payload_of r revision key key' in
      let keys = same_key_iff key key' in
      elim (Bool-cases (same_key key key')) [
        | inl match ↦
            let read' : load_payload key' (payload_of r revision key) ≡ some (r, revision) =
              read ∙ rw match refl in
            (
              λ h. let e = sym read' ∙ h in (keys.0 match, cc, cc),
              λ (k, e, e'). read' ∙ rw (e, e') refl,
            )
        | inr apart ↦
            let read' : load_payload key' (payload_of r revision key) ≡ none =
              read ∙ rw apart refl in
            (λ h. let e = sym read' ∙ h in cc, λ (k, e, e'). let match = keys.1 k in cc)
      ]

  pub loaded_of-hit :
      (o : Option (R × String)) (r : R) (revision : String)
      → loaded_of o ≡ hit r revision
      → o ≡ some (r, revision)
  loaded_of-hit none r revision h = cc
  loaded_of-hit (some (r', revision')) r revision h = cc

  -- What each file is once a snapshot has been saved.
  save_snapshot-at :
      (digest : String → String) (separator root : String) (r : R) (revision : String)
      (key : SnapshotKey) (pid : ℕ) (store : SnapshotStore R) (path : CachePath)
      → save_snapshot digest separator root r revision key pid store path ≡ (
          if same_path path (temporary_path digest separator root key pid)
          then none
          else if same_path path (snapshot_path digest separator root key)
          then some (pickled (payload_of r revision key))
          else store path)
  unfolding save_snapshot
  save_snapshot-at digest separator root r revision key pid store path =
      let self = same_path_refl (temporary_path digest separator root key pid) in
      rw self (ground arith)

  -- A saved snapshot is loaded again under its key, and the temporary file of the process is gone. No
  -- other file but that of the key has changed, and what is loaded from it has been saved under the very
  -- key that it is loaded under.
  pub load-save :
      (digest : String → String) (separator root : String) (r : R) (revision : String)
      (key : SnapshotKey) (pid : ℕ) (store : SnapshotStore R)
      → (load_snapshot digest separator root key
            (save_snapshot digest separator root r revision key pid store)
          ≡ hit r revision)
        × (save_snapshot digest separator root r revision key pid store
              (temporary_path digest separator root key pid)
            ≡ none)
        × ((path : CachePath)
            → path ≢ snapshot_path digest separator root key
            → path ≢ temporary_path digest separator root key pid
            → save_snapshot digest separator root r revision key pid store path ≡ store path)
        × ((key' : SnapshotKey) (r' : R) (revision' : String)
            → snapshot_path digest separator root key' ≡ snapshot_path digest separator root key
            → load_snapshot digest separator root key'
                (save_snapshot digest separator root r revision key pid store)
              ≡ hit r' revision'
            → (key ≡ key') × (r ≡ r') × (revision ≡ revision'))
  unfolding load_snapshot load_file
  load-save digest separator root r revision key pid store =
      let path = snapshot_path digest separator root key in
      let own = (load_payload-payload_of_iff r r revision revision key key).1 (refl, refl, refl) in
      let at = save_snapshot-at digest separator root r revision key pid store in
      let saved : save_snapshot digest separator root r revision key pid store path
          ≡ some (pickled (payload_of r revision key)) =
        at path ∙ rw (same_path_refl path) refl in
      (
        rw (saved, own) refl,
        at (temporary_path digest separator root key pid)
            ∙ rw (same_path_refl (temporary_path digest separator root key pid)) refl,
        λ other ne ne'. at other ∙ rw (apart other path ne, apart other _ ne') refl,
        λ key' r' revision' same loaded.
            (load_payload-payload_of_iff r r' revision revision' key key').0 (
              loaded_of-hit (load_payload key' (payload_of r revision key)) r' revision'
                (rw (same, saved) at loaded)),
      )
