-- ===== src/Io/Total.antt =====
-- Total correctness of calls: a call returns from every world with `P`, leaves a world with `P`, and
-- what it returns without an error satisfies `Q`.
use entropy.Base.{Option, some, ◌≡◌, refl}
use entropy.Errors.{GoError}
use entropy.Io.{Result, ok, err, Call, Go, pure, fail, call, lift, attempt, resume, ◌>>=◌}

abbrev pub Post : {A : Type 0} → (A → Type 0) → Result A → Type 0
Post Q (ok a) = Q a
Post Q (err e) = Unit

abbrev pub Anything : {A : Type 0} → A → Type 0
Anything a = Unit

module _ {W A : Type 0} (P : W → Type 0) (Q : A → Type 0) where
  abbrev pub Settled : Option (Result A × W) → Type 0
  Settled o = (r : Result A) × (w : W) × (o ≡ some (r, w)) × P w × Post Q r

  pub record Total (m : Go W A) : Type 0 where
    pub at : (w : W) → P w → Settled (m w)

Post-of : {A : Type 0} {Q : A → Type 0} (r : Result A) → ((a : A) → r ≡ ok a → Q a) → Post Q r
Post-of (ok a) q = q a refl
Post-of (err e) q = tt

module _ {W A : Type 0} {P : W → Type 0} {Q : A → Type 0} where
  pub Total-pure : (a : A) → Q a → Total P Q (pure a)
  unfolding ◌>>=◌
  Total-pure a q = record { at = λ w p. (ok a, w, refl, p, q) }

  pub Total-fail : (e : GoError) → Total P Q (fail e)
  unfolding ◌>>=◌
  Total-fail e = record { at = λ w p. (err e, w, refl, p, tt) }

  pub Total-lift : (r : Result A) → ((a : A) → r ≡ ok a → Q a) → Total P Q (lift r)
  unfolding ◌>>=◌
  Total-lift r q = record { at = λ w p. (r, w, refl, p, Post-of r q) }

  pub Total-call :
      (m : Call W A)
      → ((w : W) → P w → P (m w).1)
      → ((w : W) (a : A) → P w → (m w).0 ≡ ok a → Q a)
      → Total P Q (call m)
  unfolding ◌>>=◌
  Total-call m keep q = record {
    at = λ w p. ((m w).0, (m w).1, refl, keep w p, Post-of (m w).0 (λ a e. q w a p e));
  }

  pub Total-attempt : {m : Go W A} → Total P Q m → Total P (Post Q) (attempt m)
  unfolding ◌>>=◌
  Total-attempt {m} t = record {
    at = λ w p. let (r, w', e, p', q) = t.at w p in (ok r, w', rw e, p', q);
  }

module _ {W A B : Type 0} {P : W → Type 0} {Q : A → Type 0} {R : B → Type 0} where
  Settled-resume :
      (f : A → Go W B)
      → ((a : A) → Q a → Total P R (f a))
      → (r : Result A) (w : W) → P w
      → Post Q r
      → Settled P R (resume (some (r, w)) f)
  Settled-resume f tf (ok a) w p q = (tf a q).at w p
  Settled-resume f tf (err e) w p q = (err e, w, refl, p, tt)

  pub Total-bind :
      {m : Go W A} {f : A → Go W B}
      → Total P Q m
      → ((a : A) → Q a → Total P R (f a))
      → Total P R (m >>= f)
  unfolding ◌>>=◌
  Total-bind {m} {f} tm tf = record {
    at = λ w p. let (r, w', e, p', q) = tm.at w p in rw e (Settled-resume f tf r w' p' q);
  }
