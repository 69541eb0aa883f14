-- ===== src/Io/Below.antt =====
-- One call extends another: where the first returns, the second returns the same.
use entropy.Base.{Option, none, some, ◌≡◌, refl}
use entropy.Io.{Result, ok, err, Go, attempt, returning, resume, ◌>>=◌}

pub record Below {W A : Type 0} (m n : Go W A) : Type 0 where
  pub at : (w : W) (out : Result A × W) → m w ≡ some out → n w ≡ some out

module _ {W A : Type 0} where
  pub Below-refl : (m : Go W A) → Below m m
  Below-refl m = record { at = λ w out e. e }

  returning-Below :
      (o o' : Option (Result A × W)) (out : Result (Result A) × W)
      → ((x : Result A × W) → o ≡ some x → o' ≡ some x)
      → returning o ≡ some out
      → returning o' ≡ some out
  returning-Below none o' out h e = cc
  returning-Below (some (r, w)) o' out h e = rw (h (r, w) refl) e

  pub Below-attempt : {m n : Go W A} → Below m n → Below (attempt m) (attempt n)
  unfolding attempt
  Below-attempt {m} {n} b = record { at = λ w out e. returning-Below (m w) (n w) out (b.at w) e }

module _ {W A B : Type 0} where
  resume-Below :
      (f g : A → Go W B) (o o' : Option (Result A × W)) (out : Result B × W)
      → ((x : Result A × W) → o ≡ some x → o' ≡ some x)
      → ((a : A) → Below (f a) (g a))
      → resume o f ≡ some out
      → resume o' g ≡ some out
  resume-Below f g none o' out h b e = cc
  resume-Below f g (some (ok a, w)) o' out h b e = rw (h (ok a, w) refl) ((b a).at w out e)
  resume-Below f g (some (err x, w)) o' out h b e = rw (h (err x, w) refl) e

  pub Below-bind :
      {m n : Go W A} {f g : A → Go W B}
      → Below m n
      → ((a : A) → Below (f a) (g a))
      → Below (m >>= f) (n >>= g)
  unfolding ◌>>=◌
  Below-bind {m} {n} {f} {g} b bf = record {
    at = λ w out e. resume-Below f g (m w) (n w) out (b.at w) bf e;
  }
