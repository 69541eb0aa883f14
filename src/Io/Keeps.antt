-- ===== src/Io/Keeps.antt =====
-- Invariants of calls: `m` keeps `P` of the world, whether it returns a value or an error.
use mathlib.Core.Path.{subst}
use entropy.Base.{Option, none, some, ◌≡◌, refl, Bool, true, false, if◌then◌else◌}
use entropy.Errors.{GoError}
use entropy.Io.{
  Result, ok, err, Call, Go, pure, fail, call, lift, attempt, returning, resume, ◌>>=◌,
}

pub record Keeps {W A : Type 0} (P : W → Type 0) (m : Go W A) : Type 0 where
  pub at : (w : W) → P w → (r : Result A) (w' : W) → m w ≡ some (r, w') → P w'

moved :
    {W A : Type 0} (P : W → Type 0) (o : Result A × W)
    → P o.1
    → (r : Result A) (w' : W) → some o ≡ some (r, w')
    → P w'
moved P (a, u) p r w' e = subst P (cc) p

module _ {W A : Type 0} {P : W → Type 0} where
  pub Keeps-pure : (a : A) → Keeps P (pure a)
  unfolding ◌>>=◌
  Keeps-pure a = record { at = λ w p. moved P (ok a, w) p }

  pub Keeps-fail : (e : GoError) → Keeps P (fail {A = A} e)
  unfolding ◌>>=◌
  Keeps-fail e = record { at = λ w p. moved P (err e, w) p }

  pub Keeps-lift : (r : Result A) → Keeps P (lift r)
  unfolding ◌>>=◌
  Keeps-lift r = record { at = λ w p. moved P (r, w) p }

  pub Keeps-call : (m : Call W A) → ((w : W) → P w → P (m w).1) → Keeps P (call m)
  unfolding ◌>>=◌
  Keeps-call m k = record { at = λ w p. moved P (m w) (k w p) }

  returning-keeps :
      (o : Option (Result A × W))
      → ((r : Result A) (w' : W) → o ≡ some (r, w') → P w')
      → (r : Result (Result A)) (w' : W) → returning o ≡ some (r, w')
      → P w'
  returning-keeps none k r w' e = cc
  returning-keeps (some (a, u)) k r w' e = subst P (cc) (k a u refl)

  pub Keeps-attempt : {m : Go W A} → Keeps P m → Keeps P (attempt m)
  unfolding ◌>>=◌
  Keeps-attempt {m} k = record { at = λ w p r w' e. returning-keeps (m w) (k.at w p) r w' e }

  pub Keeps-if :
      (b : Bool) {m n : Go W A}
      → (b ≡ true → Keeps P m)
      → (b ≡ false → Keeps P n)
      → Keeps P (if b then m else n)
  Keeps-if true km kn = km refl
  Keeps-if false km kn = kn refl

module _ {W A B : Type 0} {P : W → Type 0} where
  resume-keeps :
      (o : Option (Result A × W)) (f : A → Go W B)
      → ((r : Result A) (w' : W) → o ≡ some (r, w') → P w')
      → ((a : A) → Keeps P (f a))
      → (r : Result B) (w' : W) → resume o f ≡ some (r, w')
      → P w'
  resume-keeps none f k kf r w' e = cc
  resume-keeps (some (ok a, u)) f k kf r w' e = (kf a).at u (k (ok a) u refl) r w' e
  resume-keeps (some (err x, u)) f k kf r w' e = subst P (cc) (k (err x) u refl)

  pub Keeps-bind :
      {m : Go W A} {f : A → Go W B} → Keeps P m → ((a : A) → Keeps P (f a)) → Keeps P (m >>= f)
  unfolding ◌>>=◌
  Keeps-bind {m} {f} k kf = record { at = λ w p r w' e. resume-keeps (m w) f (k.at w p) kf r w' e }
