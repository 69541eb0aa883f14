-- ===== src/Io/Invert.antt =====
-- What a call that returned without an error has done, part by part.
use entropy.Base.{Option, none, some, ◌≡◌, refl, arith}
use entropy.Io.{Result, ok, err, Call, Go, pure, call, lift, attempt, returning, resume, ◌>>=◌}

pub ok-inj : {A : Type 0} {a b : A} → ok a ≡ ok b → a ≡ b
ok-inj e = ground arith

module _ {W A B : Type 0} where
  resume-eq-ok :
      (o : Option (Result A × W)) (f : A → Go W B) {b : B} {w' : W}
      → resume o f ≡ some (ok b, w')
      → (a : A) × (w1 : W) × (o ≡ some (ok a, w1)) × (f a w1 ≡ some (ok b, w'))
  resume-eq-ok none f e = cc
  resume-eq-ok (some (ok a, w1)) f e = (a, w1, refl, e)
  resume-eq-ok (some (err x, w1)) f e = ground arith

  pub bind-eq-ok :
      (m : Go W A) (f : A → Go W B) (w : W) {b : B} {w' : W}
      → (m >>= f) w ≡ some (ok b, w')
      → (a : A) × (w1 : W) × (m w ≡ some (ok a, w1)) × (f a w1 ≡ some (ok b, w'))
  unfolding ◌>>=◌
  bind-eq-ok m f w e = resume-eq-ok (m w) f e

module _ {W A : Type 0} where
  returning-eq-ok :
      (o : Option (Result A × W)) {r : Result A} {w' : W}
      → returning o ≡ some (ok r, w')
      → o ≡ some (r, w')
  returning-eq-ok none e = cc
  returning-eq-ok (some (r, w)) e = ground arith

  pub attempt-eq-ok :
      (m : Go W A) (w : W) {r : Result A} {w' : W}
      → attempt m w ≡ some (ok r, w')
      → m w ≡ some (r, w')
  unfolding attempt
  attempt-eq-ok m w e = returning-eq-ok (m w) e

  pub lift-eq-ok :
      (r : Result A) (w : W) {a : A} {w' : W} → lift r w ≡ some (ok a, w') → (r ≡ ok a) × (w ≡ w')
  unfolding lift
  lift-eq-ok r w e = ground arith

  pub pure-eq-ok :
      (a : A) (w : W) {b : A} {w' : W} → pure a w ≡ some (ok b, w') → (a ≡ b) × (w ≡ w')
  unfolding pure
  pure-eq-ok a w e = ground arith

  pub call-eq-ok :
      (m : Call W A) (w : W) {a : A} {w' : W}
      → call m w ≡ some (ok a, w')
      → ((m w).0 ≡ ok a) × ((m w).1 ≡ w')
  unfolding call
  call-eq-ok m w e = ground arith
