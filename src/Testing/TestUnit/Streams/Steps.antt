-- ===== src/Testing/TestUnit/Streams/Steps.antt =====
-- One round of the loop: what it leaves, and how the loop goes on after it.
use repository_quality_guard.Prelude.{
  ℕ, suc, ◌+◌, ◌≤◌, ◌≡◌, refl, ap, List, [], ◌∷◌, ◌++◌, Option, none, some, arith, Bool-cases, inl,
  inr, ltb,
}
use repository_quality_guard.Testing.Value.{Value}
use repository_quality_guard.Testing.Runtime.{
  Runtime, Error, Result, ok, err, pure, ◌>>=◌, >>=-eq-ok,
}
use repository_quality_guard.Testing.Ledger.{SampleResult}
use repository_quality_guard.Testing.TestUnit.Streams.{
  Round, Progress, finished, going, Body, pair, round, loop, safe_next,
}

module _ {W : Type 0} (rt : Runtime W) (body : Body W) where
  abbrev pub Grows : Round → Round → Type 0
  Grows r r' =
      (r'.count ≡ r.count + 1)
      × (r'.count ≤ body.limit)
      × ((s : SampleResult) × (r'.results ≡ r.results ++ s ∷ []))

  -- What an accepted row leaves.
  row_going :
      (i : ℕ) (x y : Value) (r r' : Round) (w : W)
      → ((do
        s ← body.act i x y
        pure (going (record r { count = r.count + 1; results = r.results ++ s ∷ [] })))
          w).0
        ≡ ok (going r')
      → (r'.count ≡ r.count + 1) × ((s : SampleResult) × (r'.results ≡ r.results ++ s ∷ []))
  row_going i x y r r' w h =
      let (s, ran, e) = >>=-eq-ok (body.act i x y) _ w h in (ground arith, (s, ground arith))

  pair_going :
      (a b : Option Value) (r r' : Round) (w : W)
      → (pair rt body a b r w).0 ≡ ok (going r')
      → Grows r r'
  unfolding pair
  pair_going none none r r' w h = absurd (cc)
  pair_going none (some y) r r' w h = absurd (ground arith)
  pair_going (some x) none r r' w h = absurd (ground arith)
  pair_going (some x) (some y) r r' w h = elim (Bool-cases (ltb body.limit (r.count + 1))) [
    | inl over ↦ absurd (ground arith)
    | inr within ↦
        let (counted, grown) = row_going (r.count + 1) x y r r' w (rw within at h) in
        (counted, ground arith, grown)
  ]

  -- A round that goes on has recorded one more row, within the limit.
  pub round_going : (r r' : Round) (w : W) → (round rt body r w).0 ≡ ok (going r') → Grows r r'
  unfolding round
  round_going r r' w h =
      let (p, _, h') = >>=-eq-ok (safe_next rt r.inputs body.label "input" r.results) _ w h in
      let (q, _, h'') = >>=-eq-ok (safe_next rt r.oracles body.label "oracle" r.results) _ _ h' in
      pair_going p.0 q.0 (record r { inputs = p.1; oracles = q.1 }) r' _ h''

  pair_finished :
      (a b : Option Value) (r : Round) (rs : List SampleResult) (w : W)
      → (pair rt body a b r w).0 ≡ ok (finished rs)
      → rs ≡ r.results
  unfolding pair
  pair_finished none none r rs w h = cc
  pair_finished none (some y) r rs w h = absurd (ground arith)
  pair_finished (some x) none r rs w h = absurd (ground arith)
  pair_finished (some x) (some y) r rs w h = absurd (ground arith)

  -- A round that ends the loop hands over the samples as they are.
  pub finished_results :
      (r : Round) (w : W) (rs : List SampleResult)
      → (round rt body r w).0 ≡ ok (finished rs)
      → rs ≡ r.results
  unfolding round
  finished_results r w rs h =
      let (p, _, h') = >>=-eq-ok (safe_next rt r.inputs body.label "input" r.results) _ w h in
      let (q, _, h'') = >>=-eq-ok (safe_next rt r.oracles body.label "oracle" r.results) _ _ h' in
      pair_finished p.0 q.0 (record r { inputs = p.1; oracles = q.1 }) rs _ h''

  -- The three ways a loop with fuel goes on.
  pub data LoopStep (fuel : ℕ) (r : Round) (w : W) : Type 0 where
    stops :
        (results : List SampleResult)
        → (round rt body r w).0 ≡ ok (finished results)
        → (loop rt body (suc fuel) r w).0 ≡ ok (some results)
        → LoopStep fuel r w
    goes_on :
        (r' : Round)
        → (round rt body r w).0 ≡ ok (going r')
        → loop rt body (suc fuel) r w ≡ loop rt body fuel r' (round rt body r w).1
        → LoopStep fuel r w
    breaks :
        (e : Error)
        → (round rt body r w).0 ≡ err e
        → (loop rt body (suc fuel) r w).0 ≡ err e
        → LoopStep fuel r w

  pub loop_step : (fuel : ℕ) (r : Round) (w : W) → LoopStep fuel r w
  unfolding loop
  loop_step fuel r w = split (round rt body r w) refl
    where
      split : (p : Result Progress × W) → round rt body r w ≡ p → LoopStep fuel r w
      split (ok (finished results), w') e = stops results (ap (λ q. q.0) e) (rw (e, ◌>>=◌))
      split (ok (going r'), w') e = goes_on r' (ap (λ q. q.0) e) (rw (e, ◌>>=◌))
      split (err x, w') e = breaks x (ap (λ q. q.0) e) (rw (e, ◌>>=◌))
