-- ===== src/Scoped/Matcher/Reference.antt =====
-- The matcher, with its index and its cache, answers like a test of each entry.
use repository_quality_guard.Prelude.{
  String, ℕ, ◌≡◌, refl, sym, ap, ◌∙◌, Bool, not, ◌&&◌, ◌||◌, List, [], ◌∷◌, map, some, some_inj,
  ◌==◌, eq_iff, arith, Bool-cases, inl, inr, any, contains, Dict, find, put, find-put,
  find-put_other, eqb,
}
use repository_quality_guard.Prelude.Options.{Option-cases}
use repository_quality_guard.Scoped.Entries.{ScopedRuleDisable}
use repository_quality_guard.Scoped.Scopes.{Span, Source, parse_scopes}
use repository_quality_guard.Scoped.Matcher.{
  Matcher, same_key, get_key, group, new_matcher, holds_line, or_none, any_span, cached,
  matches_symbols, matches,
}
use repository_quality_guard.Scoped.Matcher.Keyed.{or_nil, symbols_of, get_key-group}

module _ (source : String → Source) where
  -- The entry permits the finding: it is for its code and its file, and for the whole file or for a
  -- uniquely named definition whose lines hold the finding's line.
  unfoldable pub permits : String → String → ℕ → ScopedRuleDisable → Bool
  permits code path line e =
      same_key (e.code, e.path) code path
      && (e.symbol == ""
          || not (eqb line 0)
            && any (holds_line line) (or_none (find e.symbol (parse_scopes (source path)))))

  -- What the cache holds of a file is what parsing it gives.
  abbrev pub IsCoherent : Dict (Dict (List Span)) → Type 0
  IsCoherent scopes =
      (path : String) (spans : Dict (List Span))
      → find path scopes ≡ some spans
      → spans ≡ parse_scopes (source path)

  put-IsCoherent :
      (path : String) (scopes : Dict (Dict (List Span)))
      → IsCoherent scopes
      → IsCoherent (put path (parse_scopes (source path)) scopes)
  put-IsCoherent path scopes h q spans found = elim (Bool-cases (path == q)) [
    | inl same ↦
        let e : path ≡ q = (eq_iff path q).0 same in
        let at : find q (put path (parse_scopes (source path)) scopes)
            ≡ some (parse_scopes (source q)) =
          rw e (find-put q (parse_scopes (source q)) scopes) in
        some_inj (sym found ∙ at)
    | inr away ↦ h q spans (sym (find-put_other path q _ scopes away) ∙ found)
  ]

  cached-IsCoherent :
      (path : String) (scopes : Dict (Dict (List Span)))
      → IsCoherent scopes
      → ((cached source path scopes).0 ≡ parse_scopes (source path))
        × IsCoherent (cached source path scopes).1
  unfolding cached
  cached-IsCoherent path scopes h = elim (Option-cases (find path scopes)) [
    | inl unseen ↦ rw (cached, unseen) (refl, put-IsCoherent path scopes h)
    | inr (spans, seen) ↦ rw (cached, seen) (h path spans seen, h)
  ]

  -- The answer for the symbols of a key.
  abbrev decided : String → ℕ → List String → Bool
  decided path line symbols =
      contains "" symbols || not (eqb line 0) && any_span symbols (parse_scopes (source path)) line

  decided-symbols_of :
      (code path : String) (line : ℕ) (es : List ScopedRuleDisable)
      → decided path line (symbols_of code path es) ≡ any (permits code path line) es
  unfolding permits any_span
  decided-symbols_of code path line [] = ground arith
  decided-symbols_of code path line (e ∷ es) =
      let rest = decided-symbols_of code path line es in
      elim (Bool-cases (same_key (e.code, e.path) code path)) [
        | inl hit ↦ rw hit (ground (arith, rest))
        | inr miss ↦ rw miss rest
      ]

  matches_symbols-eq :
      (path : String) (line : ℕ) (symbols : List String) (m : Matcher)
      → IsCoherent m.scopes
      → ((matches_symbols source path line symbols m).0 ≡ decided path line symbols)
        × ((matches_symbols source path line symbols m).1.by_key ≡ m.by_key)
        × IsCoherent (matches_symbols source path line symbols m).1.scopes
  unfolding matches_symbols
  matches_symbols-eq path line symbols m h = elim (Bool-cases (contains "" symbols)) [
    | inl whole ↦ rw (matches_symbols, whole) (refl, refl, h)
    | inr parts ↦ elim (Bool-cases (eqb line 0)) [
      | inl nowhere ↦ rw (matches_symbols, parts, nowhere) (refl, refl, h)
      | inr somewhere ↦
          let (parsed, coherent) = cached-IsCoherent path m.scopes h in
          rw (matches_symbols, parts, somewhere)
            (ap (λ spans. any_span symbols spans line) parsed, refl, coherent)
    ]
  ]

  matches-eq :
      (code path : String) (line : ℕ) (m : Matcher)
      → IsCoherent m.scopes
      → ((matches source code path line m).0
          ≡ decided path line (or_nil (get_key code path m.by_key)))
        × ((matches source code path line m).1.by_key ≡ m.by_key)
        × IsCoherent (matches source code path line m).1.scopes
  unfolding matches
  matches-eq code path line m h = elim (Option-cases (get_key code path m.by_key)) [
    | inl unkeyed ↦ rw (matches, unkeyed) ((unfold any_span in ground arith), refl, h)
    | inr (symbols, keyed) ↦ rw (matches, keyed) (matches_symbols-eq path line symbols m h)
  ]

  -- A finding: its code, its path and its line.
  abbrev pub Query : Type 0
  Query = String × String × ℕ

  -- The answers to a sequence of findings, one after the other.
  unfoldable pub matches_all : List Query → Matcher → List Bool
  matches_all [] m = []
  matches_all ((code, path, line) ∷ queries) m =
      let (answer, m') = matches source code path line m in answer ∷ matches_all queries m'

  matches_all-eq :
      (entries : List ScopedRuleDisable) (queries : List Query) (m : Matcher)
      → m.by_key ≡ group entries []
      → IsCoherent m.scopes
      → matches_all queries m ≡ map (λ (q : Query). any (permits q.0 q.1 q.2) entries) queries
  unfolding matches_all
  matches_all-eq entries [] m keyed h = refl
  matches_all-eq entries ((code, path, line) ∷ queries) m keyed h =
      let (answer, same, coherent) = matches-eq code path line m h in
      let right : (matches source code path line m).0 ≡ any (permits code path line) entries =
        answer
        ∙ ap (λ k. decided path line (or_nil (get_key code path k))) keyed
        ∙ ap (decided path line) (get_key-group code path entries)
        ∙ decided-symbols_of code path line entries in
      rw
        (
          right,
          matches_all-eq entries queries (matches source code path line m).1 (same ∙ keyed)
              coherent,
        )
        refl

  -- Whatever findings a matcher is asked about, in whatever order, it answers as if each entry had been
  -- tested by itself against the file: its index and its cache do not show.
  pub matches_all-new_matcher :
      (entries : List ScopedRuleDisable) (queries : List Query)
      → matches_all queries (new_matcher entries)
        ≡ map (λ (q : Query). any (permits q.0 q.1 q.2) entries) queries
  unfolding new_matcher
  matches_all-new_matcher entries queries =
      matches_all-eq entries queries (new_matcher entries) refl (λ path spans found. cc)
