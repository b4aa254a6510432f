-- ===== src/Testing/TestUnit/Streams/Samples.antt =====
-- Whatever way the loop ends, it hands over the samples that it had observed, and only adds to them.
use mathlib.Core.List.{append-nil, append_assoc}
use repository_quality_guard.Prelude.{
  ◌⊎◌, String, ℕ, zero, suc, ◌+◌, ◌≡◌, refl, sym, subst, List, [], ◌∷◌, ◌++◌, Option, none, some,
  Bool-cases, inl, inr, ltb, Bool, true, false, if◌then◌else◌,
}
use repository_quality_guard.Testing.Value.{Exc, Value, is_ordinary}
use repository_quality_guard.Testing.Runtime.{
  Runtime, Error, raised, partial, Result, ok, err, Exec, ◌>>=◌, continue, Next, item, missing,
  broken,
}
use repository_quality_guard.Testing.Ledger.{SampleResult}
use repository_quality_guard.Testing.TestUnit.Streams.{
  Stream, Round, Body, pair, round, loop, safe_next, next, answer,
}
use repository_quality_guard.Testing.TestUnit.Streams.Steps.{
  round_going, finished_results, stops, goes_on, breaks, loop_step,
}

-- `ys` is `xs` with more behind it.
abbrev pub Extends : List SampleResult → List SampleResult → Type 0
Extends xs ys = (more : List SampleResult) × (ys ≡ xs ++ more)

Extends-refl : (xs : List SampleResult) → Extends xs xs
Extends-refl xs = ([], sym (append-nil xs))

Extends-trans : (xs ys zs : List SampleResult) → Extends xs ys → Extends ys zs → Extends xs zs
Extends-trans xs ys zs (m, p) (n, q) = (m ++ n, cc (append_assoc xs m n))

-- The samples that an error of the loop carries extend `xs`; an exception that carries none is one of
-- those of `may`.
abbrev pub Carries : (Exc → Type 0) → List SampleResult → Error → Type 0
Carries may xs (partial samples text) = Extends xs samples
Carries may xs (raised e) = may e

abbrev pub Any : Exc → Type 0
Any e = Unit

-- The same of a result: nothing is asked of one that is no error.
abbrev pub Bears : {A : Type 0} → (Exc → Type 0) → List SampleResult → Result A → Type 0
Bears may xs (ok a) = Unit
Bears may xs (err e) = Carries may xs e

module _ {W A : Type 0} (may : Exc → Type 0) (xs : List SampleResult) where
  Bears-if :
      (b : Bool) (m n : Exec W A) (w : W)
      → Bears may xs (m w).0
      → Bears may xs (n w).0
      → Bears may xs ((if b then m else n) w).0
  Bears-if true m n w hm hn = hm
  Bears-if false m n w hm hn = hn

  pub Bears-bind :
      {B : Type 0} (m : Exec W B) (f : B → Exec W A) (w : W)
      → Bears may xs (m w).0
      → ((b : B) (w' : W) → (m w).0 ≡ ok b → Bears may xs (f b w').0)
      → Bears may xs ((m >>= f) w).0
  Bears-bind {B} m f w hm hf = after (m w).0 (m w).1 refl hm
    where
      after :
          (r : Result B) (w' : W) → (m w).0 ≡ r → Bears may xs r → Bears may xs (continue r f w').0
      after (ok b) w' e h = hf b w' e
      after (err x) w' e h = h

-- What the loop returns, or the error that it raises, holds all samples that were observed before.
abbrev pub Keeps : (Exc → Type 0) → List SampleResult → Result (Option (List SampleResult)) → Type 0
Keeps may xs (ok none) = Unit
Keeps may xs (ok (some rs)) = Extends xs rs
Keeps may xs (err e) = Carries may xs e

Keeps-weaken :
    (may : Exc → Type 0) (xs ys : List SampleResult) (r : Result (Option (List SampleResult)))
    → Extends xs ys
    → Keeps may ys r
    → Keeps may xs r
Keeps-weaken may xs ys (ok none) p k = tt
Keeps-weaken may xs ys (ok (some rs)) p k = Extends-trans xs ys rs p k
Keeps-weaken may xs ys (err (partial samples text)) p k = Extends-trans xs ys samples p k
Keeps-weaken may xs ys (err (raised e)) p k = k

error-Keeps :
    (may : Exc → Type 0) (xs : List SampleResult) (e : Error)
    → Carries may xs e
    → Keeps may xs (err e)
error-Keeps may xs e h = h

module _ {W : Type 0} (rt : Runtime W) (body : Body W) where
  -- The row action fails with no samples of its own.
  abbrev pub IsPlain : Type 0
  IsPlain =
      (i : ℕ) (x y : Value) (w : W) (xs : List SampleResult) → Bears Any xs (body.act i x y w).0

  -- An exception outside `Exception`, or one that the row action raises on some row.
  abbrev pub IsOfRow : Exc → Type 0
  IsOfRow e =
      (is_ordinary e ≡ false)
      ⊎ ((i : ℕ) × ((x : Value) × ((y : Value) × ((w : W) × ((body.act i x y w).0
                  ≡ err (raised e))))))

  row-Bears :
      (i : ℕ) (x y : Value) (w : W) (xs : List SampleResult) (r : Result SampleResult)
      → (body.act i x y w).0 ≡ r
      → Bears Any xs r
      → Bears IsOfRow xs r
  row-Bears i x y w xs (ok s) e h = tt
  row-Bears i x y w xs (err (partial samples text)) e h = h
  row-Bears i x y w xs (err (raised x')) e h = inr (i, (x, (y, (w, e))))

  answer-Bears :
      (label source : String) (samples : List SampleResult) (a : Next) (s : Stream)
      → Bears IsOfRow samples (answer rt label source samples a s)
  unfolding answer
  answer-Bears label source samples (item v) s = tt
  answer-Bears label source samples missing s = tt
  answer-Bears label source samples (broken e) s = elim (Bool-cases (is_ordinary e)) [
    | inl y ↦ rw y (Extends-refl samples)
    | inr n ↦ rw n (inl n)
  ]

  safe_next-Bears :
      (s : Stream) (label source : String) (samples : List SampleResult) (w : W)
      → Bears IsOfRow samples (safe_next rt s label source samples w).0
  unfolding safe_next
  safe_next-Bears s label source samples w =
      answer-Bears label source samples (next rt s w).0 (next rt s w).1

  pair-Bears :
      IsPlain
      → (a b : Option Value) (r : Round) (w : W) → Bears IsOfRow r.results (pair rt body a b r w).0
  unfolding pair
  pair-Bears plain none none r w = tt
  pair-Bears plain none (some y) r w =
      Bears-if IsOfRow r.results (ltb body.limit (r.count + 1)) _ _ w (Extends-refl r.results)
        (Extends-refl r.results)
  pair-Bears plain (some x) none r w =
      Bears-if IsOfRow r.results (ltb body.limit (r.count + 1)) _ _ w (Extends-refl r.results)
        (Extends-refl r.results)
  pair-Bears plain (some x) (some y) r w =
      Bears-if IsOfRow r.results (ltb body.limit (r.count + 1)) _ _ w (Extends-refl r.results) (
        Bears-bind IsOfRow r.results (body.act (r.count + 1) x y) _ w
          (row-Bears _ x y w r.results _ refl (plain _ x y w r.results)) (λ s w' _. tt))

  round-Bears : IsPlain → (r : Round) (w : W) → Bears IsOfRow r.results (round rt body r w).0
  unfolding round
  round-Bears plain r w =
      Bears-bind IsOfRow r.results (safe_next rt r.inputs body.label "input" r.results) _ w
        (safe_next-Bears r.inputs body.label "input" r.results w)
        λ p w' _.
          Bears-bind IsOfRow r.results (safe_next rt r.oracles body.label "oracle" r.results) _ w'
            (safe_next-Bears r.oracles body.label "oracle" r.results w')
            λ q w'' _. pair-Bears plain p.0 q.0 (record r { inputs = p.1; oracles = q.1 }) w''

  pub loop-Keeps :
      IsPlain → (fuel : ℕ) (r : Round) (w : W) → Keeps IsOfRow r.results (loop rt body fuel r w).0
  unfolding loop
  loop-Keeps plain zero r w = tt
  loop-Keeps plain (suc fuel) r w = elim (loop_step rt body fuel r w) [
    | stops results ran out ↦
        rw (out, finished_results rt body r w results ran) (Extends-refl r.results)
    | breaks x ran out ↦ rw out (
        error-Keeps IsOfRow r.results x
          (subst (Bears IsOfRow r.results) ran (round-Bears plain r w)))
    | goes_on r' ran out ↦
        let (_, _, grown) = round_going rt body r r' w ran in
        rw out (
          Keeps-weaken IsOfRow r.results r'.results _ (grown.0 ∷ [], grown.1)
            (loop-Keeps plain fuel r' (round rt body r w).1))
  ]
