-- ===== src/GuardFlow/Observed.antt =====
-- What an evaluation adds to `observed`.
use repository_quality_guard.Prelude.{
  String, ℕ, ◌≡◌, ◌⊎◌, refl, sym, ap, subst, ◌∙◌, true, false, List, [], ◌∷◌, Option, none, some,
  eq_iff, arith, Bool-cases, inl, inr, is_some, Member, here, there, if◌then◌else◌,
}
use repository_quality_guard.GuardFlow.{Exprs, Location, reads_all, unknown_all}
use repository_quality_guard.GuardFlow.Analysis.{
  Presence, get, Observed, same_location, find_location, note, note_all, record_reads,
}
use repository_quality_guard.GuardFlow.Semantics.{Keys, unknown_all-IsQuiet}
use repository_quality_guard.GuardFlow.Execution.{Event, Grows, Evaluates}

-- Each key of the state is there.
abbrev pub Holds : Presence → Keys → Type 0
Holds [] σ = Unit
Holds (((receiver, key), line) ∷ state) σ = (σ receiver key ≡ true) × Holds state σ

pub Holds-Grows : (state : Presence) {σ σ' : Keys} → Holds state σ → Grows σ σ' → Holds state σ'
Holds-Grows [] h grows = tt
Holds-Grows (((r, k), line) ∷ state) (h, hs) grows = (grows r k h, Holds-Grows state hs grows)

pub Holds-get :
    (state : Presence) (σ : Keys) (r k : String)
    → Holds state σ
    → is_some (get (r, k) state) ≡ true
    → σ r k ≡ true
unfolding get
Holds-get [] σ r k h found = cc
Holds-get (((r', k'), line) ∷ state) σ r k (h, hs) found =
    ground (arith, Holds-get state σ r k hs, eq_iff r' r, eq_iff k' k, h)

pub same_location-eq : (l m : Location) → same_location l m ≡ true → l ≡ m
same_location-eq l m h = ground (arith, h, eq_iff l.receiver m.receiver, eq_iff l.key m.key)

find-note_other :
    (o : Option ℕ) (m l : Location) (observed : Observed)
    → same_location m l ≡ false
    → find_location l (note o m observed) ≡ find_location l observed
unfolding find_location
find-note_other none m l observed off = refl
find-note_other (some line) m l observed off = rw off refl

find-note :
    (o : Option ℕ) (l : Location) (observed : Observed)
    → is_some (find_location l (note o l observed)) ≡ true
    → (is_some o ≡ true) ⊎ (is_some (find_location l observed) ≡ true)
find-note none l observed found = inr found
find-note (some line) l observed found = inl refl

pub find-note_all_other :
    (available : Presence) (ls : List Location) (observed : Observed) (l : Location)
    → (Member l ls → ⊥)
    → find_location l (note_all available ls observed) ≡ find_location l observed
unfolding find_location note_all
find-note_all_other available [] observed l away = refl
find-note_all_other available (m ∷ ls) observed l away =
    let rest =
      find-note_all_other available ls (note (get (m.receiver, m.key) available) m observed) l
        (λ k. away (there k)) in
    elim (Bool-cases (same_location m l)) [
      | inl self ↦ absurd (away (subst (λ z. Member z (m ∷ ls)) (same_location-eq m l self) here))
      | inr off ↦ rest ∙ find-note_other (get (m.receiver, m.key) available) m l observed off
    ]

find-note_all :
    (available : Presence) (ls : List Location) (observed : Observed) (l : Location)
    → is_some (find_location l (note_all available ls observed)) ≡ true
    → (is_some (get (l.receiver, l.key) available) ≡ true)
      ⊎ (is_some (find_location l observed) ≡ true)
unfolding find_location note_all
find-note_all available [] observed l found = inr found
find-note_all available (m ∷ ls) observed l found =
    let o = get (m.receiver, m.key) available in
    elim (find-note_all available ls (note o m observed) l found) [
      | inl held ↦ inl held
      | inr noted ↦ elim (Bool-cases (same_location m l)) [
        | inl self ↦
            let at : m ≡ l = same_location-eq m l self in
            let noted' : is_some (find_location m (note o m observed)) ≡ true =
              subst (λ z. is_some (find_location z (note o m observed)) ≡ true) (sym at) noted in
            elim (find-note o m observed noted') [
              | inl held ↦
                  inl (subst (λ z. is_some (get (z.receiver, z.key) available) ≡ true) at held)
              | inr old ↦ inr (subst (λ z. is_some (find_location z observed) ≡ true) at old)
            ]
        | inr off ↦ inr (ap is_some (sym (find-note_other o m l observed off)) ∙ noted)
      ]
    ]

-- Each read is one of a key that was there, or in a place that was in `observed` before.
abbrev pub Explained : List Event → Observed → Observed → Type 0
Explained events observed observed' =
    (e : Event)
    → Member e events
    → is_some (find_location e.location observed') ≡ true
    → (e.present ≡ true) ⊎ (is_some (find_location e.location observed) ≡ true)

no_get :
    (e : Event) → is_some (get (e.location.receiver, e.location.key) []) ≡ true → e.present ≡ true
unfolding get
no_get e held = cc

pub record_reads-Explained :
    (receivers : List String) (node : Exprs) (state : Presence) (observed : Observed) {σ σ' : Keys}
    {events : List Event}
    → Holds state σ
    → Evaluates receivers node σ events σ'
    → Explained events observed (record_reads receivers node state observed)
unfolding record_reads
record_reads-Explained receivers node state observed {σ} holds run e m found =
    elim (Bool-cases (unknown_all receivers node)) [
      | inl unknown ↦
          let found' = rw unknown at found in
          elim (find-note_all [] (reads_all receivers node) observed e.location found') [
            | inl held ↦ inl (no_get e held)
            | inr old ↦ inr old
          ]
      | inr known ↦
          let found' = rw known at found in
          elim (find-note_all state (reads_all receivers node) observed e.location found') [
            | inl held ↦
                let there' = Holds-get state σ e.location.receiver e.location.key holds held in
                inl (run.seen e (unknown_all-IsQuiet receivers node known) m there')
            | inr old ↦ inr old
          ]
    ]

pub find-record_reads_other :
    (receivers : List String) (node : Exprs) (state : Presence) (observed : Observed) (l : Location)
    → (Member l (reads_all receivers node) → ⊥)
    → find_location l (record_reads receivers node state observed) ≡ find_location l observed
unfolding record_reads
find-record_reads_other receivers node state observed l away =
    find-note_all_other (if unknown_all receivers node then [] else state)
      (reads_all receivers node) observed l away
