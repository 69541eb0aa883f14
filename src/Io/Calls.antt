-- ===== src/Io/Calls.antt =====
-- Calls that return in any case, in sequence: a world is taken and given back at each step.
use entropy.Base.{◌≡◌, refl, arith}
use entropy.Io.{Result, ok, err, Call}

module _ {W A : Type 0} where
  -- `return a, nil`, or the value and the error that were computed
  unfoldable pub answer : Result A → Call W A
  answer r w = (r, w)

  abbrev pub and_error : Result A × W → Result (Result A) × W
  and_error (r, w) = (ok r, w)

  -- `v, err := m()`: the error is a value
  unfoldable pub try : Call W A → Call W (Result A)
  try m w = and_error (m w)

module _ {W A B : Type 0} where
  abbrev pub next : Result A × W → (A → Call W B) → Result B × W
  next (ok a, w) f = f a w
  next (err e, w) f = (err e, w)

  infixl 5 ◌>>=◌ ◌>>◌
  -- `if err != nil { return nil, err }`; opening this opens the calls above too
  unfoldable pub ◌>>=◌ : Call W A → (A → Call W B) → Call W B
  unfolding answer try
  ◌>>=◌ m f w = next (m w) f

  abbrev pub ◌>>◌ : Call W A → Call W B → Call W B
  m >> n = m >>= λ _. n

  next-eq-ok :
      (o : Result A × W) (f : A → Call W B) {b : B} {w' : W}
      → next o f ≡ (ok b, w')
      → (a : A) × (u : W) × (o ≡ (ok a, u)) × (f a u ≡ (ok b, w'))
  next-eq-ok (ok a, u) f e = (a, u, refl, e)
  next-eq-ok (err x, u) f e = ground arith

  pub bind-eq-ok :
      (m : Call W A) (f : A → Call W B) (w : W) {b : B} {w' : W}
      → (m >>= f) w ≡ (ok b, w')
      → (a : A) × (u : W) × (m w ≡ (ok a, u)) × (f a u ≡ (ok b, w'))
  unfolding ◌>>=◌
  bind-eq-ok m f w e = next-eq-ok (m w) f e

module _ {W A : Type 0} where
  pub answer-eq-ok :
      (r : Result A) (w : W) {a : A} {w' : W} → answer r w ≡ (ok a, w') → (r ≡ ok a) × (w ≡ w')
  unfolding answer
  answer-eq-ok r w e = ground arith

  pub and_error-eq-ok :
      (o : Result A × W) {r : Result A} {w' : W} → and_error o ≡ (ok r, w') → o ≡ (r, w')
  and_error-eq-ok (r, w) e = ground arith

  pub try-eq-ok :
      (m : Call W A) (w : W) {r : Result A} {w' : W} → try m w ≡ (ok r, w') → m w ≡ (r, w')
  unfolding try
  try-eq-ok m w e = and_error-eq-ok (m w) e
