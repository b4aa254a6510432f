-- ===== src/Snapshot/Race.antt =====
-- A process that has read the owner of the lock, and looks whether it runs only after that owner has
-- left and another process has made the lock its own, takes the lock away from the other.
use repository_quality_guard.Prelude.{
  String, ℕ, ◌≡◌, ◌≢◌, refl, sym, Bool, true, false, none, some, eqb, arith, Bool-cases, inl, inr,
}
use repository_quality_guard.Snapshot.{SnapshotKey}
use repository_quality_guard.Snapshot.Flight.{
  Returned, tries, sees, made, owns, leaves, ends, FlightWorld, set_at, move, makes, writes_owner,
  releases, exits, removes_dead, Reach, here, next, removed,
}

eqb_self : (a : ℕ) → eqb a a ≡ true
eqb_self a = ground arith

eqb_other : (a b : ℕ) → b ≢ a → eqb a b ≡ false
eqb_other a b ne = elim (Bool-cases (eqb a b)) [
  | inl same ↦ absurd (ne (ground (arith, same)))
  | inr off ↦ off
]

module _ {R : Type 0} (digest : String → String) (separator root : String)
    (key_of : ℕ → SnapshotKey) (has_diff : R → Bool) where
  -- The owner leaves, the second process enters, and the third one takes the lock away and enters too.
  pub two_owners :
      (w : FlightWorld R) (owner second third : ℕ) (result : Returned R)
      → owner ≢ second
      → owner ≢ third
      → second ≢ third
      → w.phase owner ≡ leaves result
      → w.phase second ≡ tries
      → w.phase third ≡ sees (some owner)
      → (w' : FlightWorld R) × (Reach digest separator root key_of has_diff w w'
          × (w'.phase second ≡ owns)
          × (w'.phase third ≡ owns))
  two_owners w owner second third result os ot st at_owner at_second at_third =
      let oo = eqb_self owner in
      let ss = eqb_self second in
      let tt' = eqb_self third in
      let so = eqb_other second owner os in
      let to = eqb_other third owner ot in
      let ts = eqb_other third second st in
      let st' = eqb_other second third (λ e. st (sym e)) in
      let w₁ : FlightWorld R = move owner (ends result) (record w { lock = none }) in
      let w₂ : FlightWorld R = record w₁ { running = set_at owner false w₁.running } in
      let w₃ : FlightWorld R = move second made (record w₂ { lock = some none }) in
      let w₄ : FlightWorld R = move second owns (record w₃ { lock = some (some second) }) in
      let w₅ : FlightWorld R = move third tries (record w₄ { lock = none }) in
      let w₆ : FlightWorld R = move third made (record w₅ { lock = some none }) in
      let w₇ : FlightWorld R = move third owns (record w₆ { lock = some (some third) }) in
      let r₁ : Reach digest separator root key_of has_diff w w₁ =
        next here (releases owner result at_owner) in
      let r₂ : Reach digest separator root key_of has_diff w w₂ =
        next r₁ (exits owner result (rw oo refl)) in
      let r₃ : Reach digest separator root key_of has_diff w w₃ =
        next r₂ (makes second (rw so at_second) refl) in
      let r₄ : Reach digest separator root key_of has_diff w w₄ =
        next r₃ (writes_owner second (rw ss refl) refl) in
      let r₅ : Reach digest separator root key_of has_diff w w₅ =
        removed r₄ (removes_dead third owner (rw (ts, to) at_third) (rw oo refl)) in
      let r₆ : Reach digest separator root key_of has_diff w w₆ =
        next r₅ (makes third (rw tt' refl) refl) in
      let r₇ : Reach digest separator root key_of has_diff w w₇ =
        next r₆ (writes_owner third (rw tt' refl) refl) in
      (w₇, (r₇, rw (st', ss) refl, rw tt' refl))
