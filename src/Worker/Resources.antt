-- ===== src/Worker/Resources.antt =====
-- No use of the task leaves a worker or a directory behind.
use repository_quality_guard.Prelude.{
  String, ℕ, ◌≡◌, refl, Bool, true, false, not, List, [], ◌∷◌, Option, none, some, ◌==◌, arith,
  Bool-cases, inl, inr, is_some,
}
use repository_quality_guard.Prelude.Options.{Option-cases}
use repository_quality_guard.Worker.{
  Task, World, StartAnswer, ResultAnswer, CloseAnswer, release, is_revision, raises, Outcome,
  returns, new_task, close, launch, start, result,
}

abbrev pub listed : Option ℕ → List ℕ
listed none = []
listed (some n) = n ∷ []

release-listed :
    (ok : Bool) (o : Option ℕ) (ns : List ℕ)
    → ns ≡ listed o
    → (release ok o ns).2 ≡ listed (release ok o ns).1
unfolding release
release-listed ok none ns h = h
release-listed true (some n) ns h = rw h (ground arith)
release-listed false (some n) ns h = h

release-nil :
    (ok : Bool) (o : Option ℕ) (ns : List ℕ)
    → ns ≡ listed o
    → (release ok o ns).0 ≡ true
    → (release ok o ns).2 ≡ []
unfolding release
release-nil ok none ns h e = h
release-nil true (some n) ns h e = rw h (ground arith)
release-nil false (some n) ns h e = cc

release-none : (ok : Bool) (o : Option ℕ) (ns : List ℕ) → o ≡ none → (release ok o ns).1 ≡ none
unfolding release
release-none ok none ns h = refl
release-none ok (some n) ns h = cc

module _ {A : Type 0} where
  -- What is alive is what the task holds, and a task that was not started holds nothing.
  abbrev pub IsOwned : Task A → World → Type 0
  IsOwned t w =
      (w.processes ≡ listed t.process)
      × (w.directories ≡ listed t.directory)
      × (is_some t.revision ≡ false → (t.process ≡ none) × (t.directory ≡ none))

  pub close-IsOwned :
      (answer : CloseAnswer) (t : Task A) (w : World)
      → IsOwned t w
      → IsOwned (close answer t w).1 (close answer t w).2
  unfolding close
  close-IsOwned answer t w (ps, ds, unstarted) =
      elim (Bool-cases (release answer.terminates t.process w.processes).0) [
        | inl ended ↦ rw ended (
          release-listed answer.terminates t.process w.processes ps,
          release-listed answer.removes t.directory w.directories ds,
          λ h.
              let (p, d) = unstarted h in
              (
                release-none answer.terminates t.process w.processes p,
                release-none answer.removes t.directory w.directories d,
              ),
        )
        | inr held ↦ rw held (ps, ds, unstarted)
      ]

  launch-IsOwned :
      (answer : StartAnswer) (t : Task A) (w : World)
      → w.processes ≡ []
      → w.directories ≡ []
      → t.process ≡ none
      → t.directory ≡ none
      → is_some t.revision ≡ true
      → IsOwned (launch answer t w).1 (launch answer t w).2
  unfolding launch
  launch-IsOwned StartAnswer.no_directory t w ps ds p d r =
      rw (ps, ds, p, d) (refl, refl, λ h. (refl, refl))
  launch-IsOwned (StartAnswer.no_worker n) t w ps ds p d r =
      rw (ps, ds, p) (refl, refl, λ h. ground (arith, h, r))
  launch-IsOwned (StartAnswer.worker n m) t w ps ds p d r =
      rw (ps, ds) (refl, refl, λ h. ground (arith, h, r))

  start-IsOwned :
      (label revision : String) (cached : Option A) (answer : StartAnswer) (t : Task A) (w : World)
      → IsOwned t w
      → IsOwned
          (start label revision cached answer t w).1
          (start label revision cached answer t w).2
  unfolding start
  start-IsOwned label revision cached answer t w h = elim (Bool-cases (is_some t.revision)) [
    | inl again ↦ rw again h
    | inr first ↦ elim (Bool-cases (not (label == revision))) [
      | inl other ↦ rw (first, other) h
      | inr same ↦
          let (ps, ds, unstarted) = h in
          let (p, d) = unstarted first in
          let no_processes : w.processes ≡ [] = rw p at ps in
          let no_directories : w.directories ≡ [] = rw d at ds in
          elim (Bool-cases (is_some cached)) [
            | inl hit ↦ rw (first, same, hit) (ps, ds, λ q. unstarted first)
            | inr miss ↦
                rw (first, same, miss)
                  (launch-IsOwned answer _ w no_processes no_directories p d refl)
          ]
    ]
  ]

  result-IsOwned :
      (revision : String) (answer : ResultAnswer A) (closing : CloseAnswer) (t : Task A) (w : World)
      → IsOwned t w
      → IsOwned (result revision answer closing t w).1 (result revision answer closing t w).2
  unfolding result
  result-IsOwned revision answer closing t w h =
      elim (Bool-cases (not (is_revision revision t.revision))) [
        | inl other ↦ rw other h
        | inr same ↦ elim (Option-cases t.cached) [
          | inr (pair, hit) ↦ rw (same, hit) h
          | inl miss ↦ elim (Bool-cases (is_some t.process)) [
            | inl live ↦ elim (Bool-cases (is_some t.directory)) [
              | inl there ↦ rw (same, miss, live, there) (close-IsOwned closing t w h)
              | inr gone ↦ rw (same, miss, live, gone) h
            ]
            | inr dead ↦ rw (same, miss, dead) h
          ]
        ]
      ]

  -- What the task and the outside can come to, by any calls with any answers.
  pub data Reaches : Task A → World → Type 0 where
    created : Reaches new_task (record { processes = []; directories = [] })
    started :
        {t : Task A} {w : World} (label revision : String) (cached : Option A)
        (answer : StartAnswer)
        → Reaches t w
        → Reaches
            (start label revision cached answer t w).1
            (start label revision cached answer t w).2
    awaited :
        {t : Task A} {w : World} (revision : String) (answer : ResultAnswer A)
        (closing : CloseAnswer)
        → Reaches t w
        → Reaches (result revision answer closing t w).1 (result revision answer closing t w).2
    closed :
        {t : Task A} {w : World} (answer : CloseAnswer)
        → Reaches t w
        → Reaches (close answer t w).1 (close answer t w).2

  Reaches-IsOwned : {t : Task A} {w : World} → Reaches t w → IsOwned t w
  Reaches-IsOwned created = (refl, refl, λ h. (refl, refl))
  Reaches-IsOwned (started {t = t} {w = w} label revision cached answer r) =
      start-IsOwned label revision cached answer t w (Reaches-IsOwned r)
  Reaches-IsOwned (awaited {t = t} {w = w} revision answer closing r) =
      result-IsOwned revision answer closing t w (Reaches-IsOwned r)
  Reaches-IsOwned (closed {t = t} {w = w} answer r) = close-IsOwned answer t w (Reaches-IsOwned r)

  -- After any calls, in any order and with any failures, a `close` that returns leaves no worker and no
  -- directory alive.
  pub close-empty :
      (t : Task A) (w : World) (answer : CloseAnswer)
      → Reaches t w
      → (close answer t w).0 ≡ returns
      → ((close answer t w).2.processes ≡ []) × ((close answer t w).2.directories ≡ [])
  unfolding close
  close-empty t w answer reached returned =
      let (ps, ds, _) = Reaches-IsOwned reached in
      elim (Bool-cases (release answer.terminates t.process w.processes).0) [
        | inr held ↦ let off : ◌≡◌ {A = Outcome A} raises returns = rw held at returned in cc
        | inl ended ↦ elim (Bool-cases (release answer.removes t.directory w.directories).0) [
          | inr kept ↦
              let off : ◌≡◌ {A = Outcome A} raises returns = rw (ended, kept) at returned in cc
          | inl cleaned ↦ rw ended (
            release-nil answer.terminates t.process w.processes ps ended,
            release-nil answer.removes t.directory w.directories ds cleaned,
          )
        ]
      ]
