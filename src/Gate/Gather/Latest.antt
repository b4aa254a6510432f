-- ===== src/Gate/Gather/Latest.antt =====
-- The dictionary of findings by fingerprint holds the latest finding of each fingerprint.
use repository_quality_guard.Prelude.{
  String, ◌≡◌, refl, Bool, true, ◌&&◌, List, [], ◌∷◌, Option, none, some, ◌==◌, Dict, find, put,
  IsDict, find-put, sym, ◌∙◌, find-put_other, put-IsDict, all, arith, Bool-cases, inl, inr, eq_iff,
  eq_refl, Member, here, there, is_some, if◌then◌else◌,
}
use repository_quality_guard.Prelude.Options.{Option-cases}
use repository_quality_guard.Gate.Findings.{Finding, fingerprint}
use repository_quality_guard.Gate.Gather.{gather}

module _ (digest : String → String) (test : Finding → Bool) where
  -- The last finding of the list that passes and has the fingerprint `k`.
  unfoldable pub latest : String → List Finding → Option Finding
  latest k [] = none
  latest k (f ∷ fs) = elim (latest k fs) [
    | some g ↦ some g
    | none ↦ if test f && fingerprint digest f == k then some f else none
  ]

  abbrev or_else : Option Finding → Option Finding → Option Finding
  or_else (some f) other = some f
  or_else none other = other

  -- One finding put in front of the others.
  find-put_step :
      (k : String) (f : Finding) (d : Dict Finding)
      → find k (put (fingerprint digest f) f d)
        ≡ (if fingerprint digest f == k then some f else find k d)
  find-put_step k f d = elim (Bool-cases (fingerprint digest f == k)) [
    | inl same ↦
        let e : fingerprint digest f ≡ k = (eq_iff (fingerprint digest f) k).0 same in
        let found = find-put k f d in rw (same, e) found
    | inr away ↦ rw away (find-put_other (fingerprint digest f) k f d away)
  ]

  pub find-gather :
      (k : String) (fs : List Finding) (d : Dict Finding)
      → find k (gather digest test d fs) ≡ or_else (latest k fs) (find k d)
  unfolding gather latest
  find-gather k [] d = refl
  find-gather k (f ∷ fs) d = ground (
    arith,
    find-gather k fs d,
    find-gather k fs (put (fingerprint digest f) f d),
    find-put_step k f d,
  )

  -- From the empty dictionary on, each fingerprint is found with its latest finding.
  pub find-gather_empty :
      (k : String) (fs : List Finding) → find k (gather digest test [] fs) ≡ latest k fs
  find-gather_empty k fs = elim (Option-cases (latest k fs)) [
    | inl unseen ↦ rw (find-gather k fs [], unseen) refl
    | inr (f, seen) ↦ rw (find-gather k fs [], seen) refl
  ]

  pub gather-IsDict :
      (fs : List Finding) (d : Dict Finding) → IsDict d → IsDict (gather digest test d fs)
  unfolding gather
  gather-IsDict [] d h = h
  gather-IsDict (f ∷ fs) d h = elim (Bool-cases (test f)) [
    | inl passed ↦ rw passed (
        gather-IsDict fs (put (fingerprint digest f) f d) (put-IsDict (fingerprint digest f) f d h))
    | inr failed ↦ rw failed (gather-IsDict fs d h)
  ]

  abbrev pub passes : String × Finding → Bool
  passes e = test e.1

  all-put :
      (k : String) (f : Finding) (d : Dict Finding)
      → test f ≡ true
      → all passes d ≡ true
      → all passes (put k f d) ≡ true
  all-put k f [] passed h = rw passed refl
  all-put k f ((l, g) ∷ d) passed h = ground (arith, h, passed, all-put k f d)

  -- Every finding of the dictionary passes the test.
  pub gather-passes :
      (fs : List Finding) (d : Dict Finding)
      → all passes d ≡ true
      → all passes (gather digest test d fs) ≡ true
  unfolding gather
  gather-passes [] d h = h
  gather-passes (f ∷ fs) d h = elim (Bool-cases (test f)) [
    | inl passed ↦ rw passed (
        gather-passes fs (put (fingerprint digest f) f d)
          (all-put (fingerprint digest f) f d passed h))
    | inr failed ↦ rw failed (gather-passes fs d h)
  ]

  -- What `latest` finds stands in the list, passes, and has the fingerprint.
  pub latest-Member :
      (k : String) (fs : List Finding) (f : Finding)
      → latest k fs ≡ some f
      → Member f fs × ((test f ≡ true) × ((fingerprint digest f == k) ≡ true))
  unfolding latest
  latest-Member k [] f h = cc
  latest-Member k (g ∷ fs) f h = elim (Option-cases (latest k fs)) [
    | inl none_later ↦
        let taken : (if test g && fingerprint digest g == k then some g else none) ≡ some f =
          rw none_later at h in
        let passed : (test g && fingerprint digest g == k) ≡ true = ground (arith, taken) in
        let kept : some g ≡ some f = rw passed at taken in
        let same : g ≡ f = cc in rw (sym same) (here, ground (arith, passed))
    | inr (g', later) ↦
        let kept : some g' ≡ some f = rw later at h in
        let (m, rest) = latest-Member k fs f (later ∙ kept) in (there m, rest)
  ]

  -- Where a passing finding stands in the list, its fingerprint has a latest finding.
  pub latest-is_some :
      (f : Finding) (fs : List Finding)
      → Member f fs
      → test f ≡ true
      → is_some (latest (fingerprint digest f) fs) ≡ true
  unfolding latest
  latest-is_some f fs (here {xs = xs}) h = elim (Option-cases (latest (fingerprint digest f) xs)) [
    | inl unseen ↦ rw (unseen, h, eq_refl (fingerprint digest f)) refl
    | inr (g, seen) ↦ rw seen refl
  ]
  latest-is_some f fs (there {xs = ys} m) h =
      elim (Option-cases (latest (fingerprint digest f) ys)) [
        | inl unseen ↦
            let seen = latest-is_some f ys m h in
            let off : is_some {A = Finding} none ≡ true = rw unseen at seen in cc
        | inr (g', seen) ↦ rw seen refl
      ]
