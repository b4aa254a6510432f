-- ===== src/Testing/Loader.antt =====
-- packages/rqgtest/src/rqgtest/data/loader.py: the cache of `DataLoader.filename`, on a store of files.
pub mod Cache
use repository_quality_guard.Prelude.{
  String, Bool, true, false, not, List, [], ◌∷◌, Option, none, some, Dict, find, put, remove,
  is_some, if◌then◌else◌,
}

-- The files, by their paths.
abbrev pub Store : Type 0
Store = Dict String

-- What a `preprocessing` hook does with the output file on the content of the source: it writes it
-- and returns, it returns without touching it, it deletes it and returns, or it raises and leaves some
-- content behind.
pub data Effect : Type 0 where
  writes : String → Effect
  leaves_alone : Effect
  deletes : Effect
  fails : String → Effect

-- A loader: the paths of its source and of its cache, whether its class has a hook of its own and a
-- suffix, and the hook.
pub record Loader : Type 0 where
  pub source : String
  pub target : String
  pub has_preprocessing : Bool
  pub has_suffix : Bool
  pub preprocessing : String → Effect

pub data Answer : Type 0 where
  path : String → Answer
  file_not_found : String → Answer
  value_error : Answer
  passed_on : Answer

-- The state of the temporary file behind the hook, and whether the hook has returned. `mkstemp` has
-- made the file, with no content.
unfoldable pub hooked : Effect → Option String × Bool
hooked (writes content) = (some content, true)
hooked leaves_alone = (some "", true)
hooked deletes = (none, true)
hooked (fails content) = (some content, false)

-- The `try` block behind `mkstemp`, whose `finally` clause removes the temporary file.
unfoldable pub materialize : Loader → String → String → Store → Answer × Store
unfolding hooked
materialize loader temporary content store =
    let (left, returned) = hooked (loader.preprocessing content) in
    if returned
    then elim left [
      | none ↦ (file_not_found temporary, remove temporary store)
      | some written ↦ (
        path loader.target,
        remove temporary (put loader.target written (remove temporary store)),
      )
    ]
    else (passed_on, remove temporary store)

-- `filename`; `temporary` is the path that `mkstemp` chooses, if it is called.
unfoldable pub filename : Loader → String → Store → Answer × Store
unfolding materialize
filename loader temporary store = elim (find loader.source store) [
  | none ↦ (file_not_found loader.source, store)
  | some content ↦
      if not loader.has_preprocessing
      then (path loader.source, store)
      else if not loader.has_suffix
      then (value_error, store)
      else if is_some (find loader.target store)
      then (path loader.target, store)
      else materialize loader temporary content store
]
