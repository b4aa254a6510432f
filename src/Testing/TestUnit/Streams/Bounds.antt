-- ===== src/Testing/TestUnit/Streams/Bounds.antt =====
-- The loop ends within its bound, and it loses no sample that was observed.
use repository_quality_guard.Prelude.{
  ℕ, zero, suc, ◌+◌, ◌≤◌, ◌<◌, ◌≡◌, ◌≢◌, List, [], ◌∷◌, none, some, length, arith, length-append,
}
use repository_quality_guard.Testing.Runtime.{Runtime, ok}
use repository_quality_guard.Testing.TestUnit.Streams.Steps.{
  round_going, finished_results, stops, goes_on, breaks, loop_step,
}
use repository_quality_guard.Testing.Ledger.{SampleResult}
use repository_quality_guard.Testing.TestUnit.Streams.{Stream, Round, going, Body, round, loop}

module _ {W : Type 0} (rt : Runtime W) (body : Body W) where
  -- Within its limit the loop ends: this much fuel is never used up, whatever the streams yield.
  pub loop-ne-none :
      (fuel : ℕ) (r : Round) (w : W)
      → r.count ≤ body.limit
      → body.limit < r.count + fuel
      → (loop rt body fuel r w).0 ≢ ok none
  loop-ne-none zero r w h f e = omega arith
  loop-ne-none (suc fuel) r w h f e = elim (loop_step rt body fuel r w) [
    | stops results _ out ↦ cc
    | breaks x _ out ↦ cc
    | goes_on r' ran out ↦
        let (counted, within, _) = round_going rt body r r' w ran in
        loop-ne-none fuel r' (round rt body r w).1 within (omega arith) (cc)
  ]

  -- The results stand in step with the count of rows, within the limit.
  pub record IsCounted (r : Round) : Type 0 where
    pub in_step : length r.results ≡ r.count
    pub within : r.count ≤ body.limit

  going-IsCounted :
      (r r' : Round) (w : W) → IsCounted r → (round rt body r w).0 ≡ ok (going r') → IsCounted r'
  going-IsCounted r r' w c h =
      let (counted, within, grown) = round_going rt body r r' w h in
      record {
        in_step = rw grown.1 (omega (arith, length-append r.results (grown.0 ∷ []), c.in_step));
        within = within;
      }

  -- The loop returns no more samples than its limit.
  pub length-loop-le :
      (fuel : ℕ) (r : Round) (w : W) (rs : List SampleResult)
      → IsCounted r
      → (loop rt body fuel r w).0 ≡ ok (some rs)
      → length rs ≤ body.limit
  unfolding loop
  length-loop-le zero r w rs c h = absurd (cc)
  length-loop-le (suc fuel) r w rs c h = elim (loop_step rt body fuel r w) [
    | stops results ran out ↦
        let e : rs ≡ r.results = finished_results rt body r w rs (cc) in
        rw e (omega (arith, c.in_step, c.within))
    | breaks x _ out ↦ absurd (cc)
    | goes_on r' ran out ↦
        length-loop-le fuel r' (round rt body r w).1 rs (going-IsCounted r r' w c ran) (cc)
  ]

  -- A loop from its start, on the fuel that the executor gives it.
  pub loop_ends :
      (inputs oracles : Stream) (w : W)
      → (loop rt body
          (body.limit + 1)
          (record { inputs = inputs; oracles = oracles; count = 0; results = [] })
          w).0
        ≢ ok none
  loop_ends inputs oracles w = loop-ne-none (body.limit + 1) _ w (omega arith) (omega arith)
