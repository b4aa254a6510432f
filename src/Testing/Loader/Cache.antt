-- ===== src/Testing/Loader/Cache.antt =====
-- What a call of `filename` does to the files.
use repository_quality_guard.Prelude.{
  String, ◌≡◌, true, false, none, some, ◌==◌, find, put, remove, ◌⊎◌,
}
use repository_quality_guard.Testing.Loader.{Store, Loader, Answer, path, hooked}

-- The two stores have the same files, but for `target`.
abbrev pub AgreeBut : String → Store → Store → Type 0
AgreeBut target before after = (p : String) → (target == p) ≡ false → find p after ≡ find p before

module _ (loader : Loader) (temporary : String) (store : Store)
    (fresh : find temporary store ≡ none) (apart : (temporary == loader.target) ≡ false) where
  -- The store behind a replacement of the target.
  abbrev replaced : String → Store
  replaced written = remove temporary (put loader.target written (remove temporary store))

  -- How the target can have changed: not at all, or from no file to the whole of what a hook that has
  -- returned left in its output file.
  abbrev pub IsCached : Answer → Store → Type 0
  IsCached answer after =
      (find loader.target after ≡ find loader.target store)
      ⊎ ((content : String) × ((written : String) × ((find loader.source store ≡ some content)
              × (hooked (loader.preprocessing content) ≡ (some written, true))
              × (answer ≡ path loader.target)
              × (find loader.target after ≡ some written))))

  abbrev Laws : Answer × Store → Type 0
  Laws r = AgreeBut loader.target store r.1 × IsCached r.0 r.1
