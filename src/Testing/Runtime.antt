-- ===== src/Testing/Runtime.antt =====
-- What the executor calls and does not implement: the code under test, the event loop, the
-- iterators of user code, `repr` and `str`. `W` is the state that such code reads and changes.
use repository_quality_guard.Prelude.{
  String, ℕ, ◌≡◌, Bool, true, false, List, refl, arith, Option, none, some, ◌≢◌,
}
use repository_quality_guard.Testing.Value.{Exc, Value, Values, Fields}
use repository_quality_guard.Testing.Ledger.{SampleResult}

-- How a call of outside code ends.
pub data Reply : Type 0 where
  returned : Value → Reply
  raised : Exc → Reply

-- `next(iterator, _MISSING)`
pub data Next : Type 0 where
  item : Value → Next
  missing : Next
  broken : Exc → Next

-- `iter(value)`
pub data Opened : Type 0 where
  opened : ℕ → Opened
  refused : Exc → Opened

-- `repr(value)` or `str(exception)`, which may run user code
pub data Shown : Type 0 where
  described : String → Shown
  undescribed : Exc → Shown

pub record Runtime (W : Type 0) : Type 0 where
  pub call : Value → Values → Fields → W → Reply × W
  pub await : ℕ → W → Reply × W
  pub getattr : Value → String → W → Reply × W
  pub iter : Value → W → Opened × W
  pub next : ℕ → W → Next × W
  pub repr : Value → W → Shown × W
  pub str : Exc → W → Shown × W
  -- the event loop of a stateful case: its creation, and its end, which cancels what is pending
  pub open_loop : W → W
  pub close_loop : W → W

-- `_PartialCaseError` carries the samples observed so far; `text` is its `str`.
pub data Error : Type 0 where
  raised : Exc → Error
  partial : List SampleResult → String → Error

pub data Result (A : Type 0) : Type 0 where
  ok : A → Result A
  err : Error → Result A

-- A method that calls outside code and may raise; the outside state survives a raise.
abbrev pub Exec : Type 0 → Type 0 → Type 0
Exec W A = W → Result A × W

module _ {W A : Type 0} where
  abbrev pub pure : A → Exec W A
  pure a w = (ok a, w)

  abbrev pub throw : Error → Exec W A
  throw e w = (err e, w)

module _ {W A B : Type 0} where
  abbrev pub continue : Result A → (A → Exec W B) → Exec W B
  continue (ok a) f = f a
  continue (err e) f = throw e

  infixl 5 ◌>>=◌ ◌>>◌
  abbrev pub ◌>>=◌ : Exec W A → (A → Exec W B) → Exec W B
  ◌>>=◌ m f w = let (r, w') = m w in continue r f w'

  abbrev pub ◌>>◌ : Exec W A → Exec W B → Exec W B
  m >> n = m >>= λ _. n

module _ {W : Type 0} where
  -- `if not test: raise error`
  abbrev pub require : Bool → Error → Exec W Unit
  require true e = pure tt
  require false e = throw e

-- A call whose exceptions are not caught here.
module _ {W : Type 0} where
  abbrev pub propagate : (W → Reply × W) → Exec W Value
  propagate m w =
      let (r, w') = m w in (elim r [ returned v ↦ ok v | raised e ↦ err (raised e) ], w')

-- Inversion of a block that returns.
pub >>=-eq-ok :
    {W A B : Type 0} (m : Exec W A) (f : A → Exec W B) (w : W) {b : B}
    → ((m >>= f) w).0 ≡ ok b
    → (a : A) × ((m w).0 ≡ ok a) × ((f a (m w).1).0 ≡ ok b)
>>=-eq-ok m f w h = ground arith

-- Two blocks with one first action agree where the rest agrees.
pub bind_cong :
    {W A B C D : Type 0} (m : Exec W A) (f : A → Exec W B) (g : B → Exec W D) (f' : A → Exec W C)
    (g' : C → Exec W D) (w : W)
    → ((a : A) (w' : W) → (f a >>= g) w' ≡ (f' a >>= g') w')
    → ((m >>= f) >>= g) w ≡ ((m >>= f') >>= g') w
bind_cong {W} {A} m f g f' g' w agree = after (m w)
  where
    after :
        (p : Result A × W)
        → (let (b, w'') = continue p.0 f p.1 in continue b g w'')
          ≡ (let (c, w'') = continue p.0 f' p.1 in continue c g' w'')
    after (ok a, w') = agree a w'
    after (err e, w') = refl

module _ {W A : Type 0} where
  strip : (p : Result (Option A) × W) → p.0 ≢ ok none → Result A × W
  strip (ok none, w) h = absurd (h refl)
  strip (ok (some a), w) h = (ok a, w)
  strip (err e, w) h = (err e, w)

  -- A computation on fuel that is proved never to run out of it.
  unfoldable pub complete : (m : Exec W (Option A)) → ((w : W) → (m w).0 ≢ ok none) → Exec W A
  unfolding strip
  complete m h w = strip (m w) (h w)

  strip-eq :
      (p : Result (Option A) × W) (h : p.0 ≢ ok none) (a : A) (w : W)
      → p ≡ (ok (some a), w)
      → strip p h ≡ (ok a, w)
  unfolding strip
  strip-eq (ok none, w') h a w e = absurd (h refl)
  strip-eq (ok (some b), w') h a w e = cc
  strip-eq (err x, w') h a w e = cc

  strip-some :
      (p : Result (Option A) × W) (h : p.0 ≢ ok none) (a : A)
      → (strip p h).0 ≡ ok a
      → p.0 ≡ ok (some a)
  unfolding strip
  strip-some (ok none, w') h a e = absurd (h refl)
  strip-some (ok (some b), w') h a e = cc
  strip-some (err x, w') h a e = cc

  pub complete-eq-ok :
      (m : Exec W (Option A)) (h : (w : W) → (m w).0 ≢ ok none) (w : W) (a : A)
      → (complete m h w).0 ≡ ok a
      → (m w).0 ≡ ok (some a)
  unfolding complete
  complete-eq-ok m h w a e = strip-some (m w) (h w) a e

  strip-error :
      (p : Result (Option A) × W) (h : p.0 ≢ ok none) (x : Error) (w : W)
      → p ≡ (err x, w)
      → strip p h ≡ (err x, w)
  unfolding strip
  strip-error (ok none, w') h x w e = absurd (h refl)
  strip-error (ok (some b), w') h x w e = cc
  strip-error (err y, w') h x w e = cc

  strip-pure :
      (p : Result (Option A) × W) (h : p.0 ≢ ok none) (q : Result A × W)
      → p ≡ continue q.0 (λ a. pure (some a)) q.1
      → strip p h ≡ q
  strip-pure p h (ok a, w) e = strip-eq p h a w e
  strip-pure p h (err x, w) e = strip-error p h x w e

  strip-throw :
      {B : Type 0} (p : Result (Option A) × W) (h : p.0 ≢ ok none) (f : B → Error)
      (q : Result B × W)
      → p ≡ continue q.0 (λ b. throw (f b)) q.1
      → strip p h ≡ continue q.0 (λ b. throw (f b)) q.1
  strip-throw p h f (ok b, w) e = strip-error p h (f b) w e
  strip-throw p h f (err x, w) e = strip-error p h x w e

  -- A computation on fuel that runs as `r` does is completed to `r`.
  pub complete-pure :
      (m : Exec W (Option A)) (h : (w : W) → (m w).0 ≢ ok none) (r : Exec W A) (w : W)
      → m w ≡ (r >>= λ a. pure (some a)) w
      → complete m h w ≡ r w
  unfolding complete
  complete-pure m h r w e = strip-pure (m w) (h w) (r w) e

  pub complete-throw :
      {B : Type 0} (m : Exec W (Option A)) (h : (w : W) → (m w).0 ≢ ok none) (r : Exec W B)
      (f : B → Error) (w : W)
      → m w ≡ (r >>= λ b. throw (f b)) w
      → complete m h w ≡ (r >>= λ b. throw (f b)) w
  unfolding complete
  complete-throw m h r f w e = strip-throw (m w) (h w) f (r w) e

  -- A test that always passes behind `m` changes nothing.
  pub require_passes :
      (p : Result A × W) (test : A → Bool) (x : Error)
      → ((a : A) → p.0 ≡ ok a → test a ≡ true)
      → continue p.0 (λ a. require (test a) x >> pure a) p.1 ≡ p
  require_passes (ok a, w) test x h = rw (h a refl)
  require_passes (err y, w) test x h = refl

-- What follows a throw is not run.
pub throw_absorbs :
    {W A B C : Type 0} (p : Result A × W) (f : A → Error) (k : B → Exec W C)
    → continue
        (continue p.0 (λ a. throw {A = B} (f a)) p.1).0
        k
        (continue p.0 (λ a. throw {A = B} (f a)) p.1).1
      ≡ continue p.0 (λ a. throw {A = C} (f a)) p.1
throw_absorbs (ok a, w) f k = refl
throw_absorbs (err x, w) f k = refl

-- Inversion of a block that returns, with the states.
pub bind_returns :
    {W A B : Type 0} (m : Exec W A) (f : A → Exec W B) (w w' : W) {b : B}
    → (m >>= f) w ≡ (ok b, w')
    → (a : A) × (v : W) × (m w ≡ (ok a, v)) × (f a v ≡ (ok b, w'))
bind_returns {W} {A} {B} m f w w' {b} h = after (m w) refl h
  where
    after :
        (p : Result A × W)
        → m w ≡ p
        → continue p.0 f p.1 ≡ (ok b, w')
        → (a : A) × (v : W) × (m w ≡ (ok a, v)) × (f a v ≡ (ok b, w'))
    after (ok a, v) e h = (a, v, e, h)
    after (err x, v) e h = absurd (cc)
