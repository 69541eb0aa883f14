-- ===== src/Postgres/Reading.antt =====
-- Calls of the store that only read: the tables are as they were, but for the faults that came.
use entropy.Base.{List, [], ◌∷◌, Option, none, some, ◌≡◌, refl, ◌∙◌, ap}
use entropy.Io.{Result, ok, err, Call}
use entropy.Io.Calls.{answer, try, and_error, next, ◌>>=◌}
use entropy.Postgres.{Fault, Rows, Tables, run_or_fail, statement, finished_tx, begun_tx, within_tx}
use entropy.Postgres.Gives.{content, undone}

pub record Reads {A : Type 0} (m : Call Tables A) : Type 0 where
  pub at : (t : Tables) → content (m t).1 ≡ content t

run-Reads :
    {A : Type 0} (r : Rows → Result A) (fs : List (Option Fault)) (t : Tables)
    → content (run_or_fail fs (λ t. (r t.rows, t)) t).1 ≡ content t
run-Reads r [] t = refl
run-Reads r (none ∷ fs) t = refl
run-Reads r (some e ∷ fs) t = refl

module _ {A : Type 0} where
  pub Reads-query : (r : Rows → Result A) → Reads (statement (λ t. (r t.rows, t)))
  unfolding statement
  Reads-query r = record { at = λ t. run-Reads r t.faults t }

  pub Reads-answer : (r : Result A) → Reads (answer r)
  unfolding answer
  Reads-answer r = record { at = λ t. refl }

  and_error-same : (out : Result A × Tables) → (and_error out).1 ≡ out.1
  and_error-same (r, t) = refl

  pub Reads-try : {m : Call Tables A} → Reads m → Reads (try m)
  unfolding ◌>>=◌
  Reads-try {m} g = record { at = λ t. ap content (and_error-same (m t)) ∙ g.at t }

module _ {A B : Type 0} where
  next-same :
      (f : A → Call Tables B)
      → ((a : A) → Reads (f a))
      → (out : Result A × Tables) → content (next out f).1 ≡ content out.1
  next-same f g (ok a, t) = (g a).at t
  next-same f g (err e, t) = refl

  pub Reads-bind :
      {m : Call Tables A} {f : A → Call Tables B}
      → Reads m
      → ((a : A) → Reads (f a))
      → Reads (m >>= f)
  unfolding ◌>>=◌
  Reads-bind {m} {f} gm gf = record { at = λ t. next-same f gf (m t) ∙ gm.at t }

module _ {A : Type 0} where
  finished-same :
      (before : Tables) (out : Result A × Tables)
      → content out.1 ≡ content before
      → content (finished_tx before out).1 ≡ content before
  unfolding statement answer
  finished-same before (ok a, t) e = commit t.faults t e
    where
      commit :
          (fs : List (Option Fault)) (t : Tables)
          → content t ≡ content before
          → content (entropy.Postgres.committed before a (run_or_fail fs (λ t. (ok tt, t)) t)).1
            ≡ content before
      commit [] t e = e
      commit (none ∷ fs) t e = e
      commit (some x ∷ fs) t e = ap (undone (content before)) e
  finished-same before (err x, t) e = ap (undone (content before)) e

  begun-same :
      (fn : Call Tables A)
      → Reads fn
      → (before : Tables) (fs : List (Option Fault))
      → content (begun_tx before fn (run_or_fail fs (λ t. (ok tt, t)) before)).1 ≡ content before
  begun-same fn g before [] = finished-same before (fn before) (g.at before)
  begun-same fn g before (none ∷ fs) = finished-same before _ (g.at (record before { faults = fs }))
  begun-same fn g before (some e ∷ fs) = refl

  pub Reads-within_tx : {fn : Call Tables A} → Reads fn → Reads (within_tx fn)
  unfolding within_tx statement answer
  Reads-within_tx {fn} g = record { at = λ t. begun-same fn g t t.faults }
