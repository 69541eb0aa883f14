-- ===== src/Postgres/Gives.antt =====
-- What a call of the store leads to, from the tables before it to those after it. The faults of the
-- database are left open: an assertion is about the rest of the tables.
use entropy.Base.{ℕ, Bool, true, false, List, [], ◌∷◌, Option, none, some, ◌≡◌, refl, if◌then◌else◌}
use entropy.Io.{Result, ok, err, Call}
use entropy.Io.Calls.{answer, try, and_error, next, ◌>>=◌}
use entropy.Postgres.{
  Fault, Rows, Tables, run_or_fail, statement, committed, finished_tx, begun_tx, within_tx,
}

-- the tables without the faults
pub record Content : Type 0 where
  pub rows : Rows
  pub next_resource_id : ℕ
  pub next_revision_id : ℕ
  pub time : ℕ

abbrev pub content : Tables → Content
content t = record {
  rows = t.rows;
  next_resource_id = t.next_resource_id;
  next_revision_id = t.next_revision_id;
  time = t.time;
}

module _ {A : Type 0} where
  -- `Q` where the call returns a value, and `E` where it returns an error
  abbrev pub Ends : (Content → Type 0) → (A → Content → Type 0) → Result A × Tables → Type 0
  Ends E Q (ok a, t) = Q a (content t)
  Ends E Q (err e, t) = E (content t)

  pub record Gives (P E : Content → Type 0) (m : Call Tables A) (Q : A → Content → Type 0)
      : Type 0 where
    pub at : (t : Tables) → P (content t) → Ends E Q (m t)

module _ {A : Type 0} (P E : Content → Type 0) (Q : A → Content → Type 0) where
  run-Ends :
      (stmt : Call Tables A)
      → ((t : Tables) → P (content t) → Ends E Q (stmt t))
      → ((c : Content) → P c → E c)
      → (fs : List (Option Fault)) (t : Tables) → P (content t)
      → Ends E Q (run_or_fail fs stmt t)
  run-Ends stmt runs fails [] t p = runs t p
  run-Ends stmt runs fails (none ∷ fs) t p = runs (record t { faults = fs }) p
  run-Ends stmt runs fails (some e ∷ fs) t p = fails (content t) p

  answer-Ends :
      (r : Result A) (t : Tables)
      → ((a : A) → r ≡ ok a → P (content t) → Q a (content t))
      → ((c : Content) → P c → E c)
      → P (content t)
      → Ends E Q (r, t)
  answer-Ends (ok a) t q fails p = q a refl p
  answer-Ends (err e) t q fails p = fails (content t) p

module _ {A : Type 0} (E : Content → Type 0) (Q : A → Content → Type 0) where
  -- the error is a value: what holds of each
  abbrev pub Either : Result A → Content → Type 0
  Either (ok a) c = Q a c
  Either (err e) c = E c

  and_error-Ends :
      (F : Content → Type 0) (out : Result A × Tables)
      → Ends E Q out
      → Ends F Either (and_error out)
  and_error-Ends F (ok a, t) h = h
  and_error-Ends F (err e, t) h = h

module _ {A B : Type 0} (E : Content → Type 0) (Q : A → Content → Type 0)
    (R : B → Content → Type 0) where
  next-Ends :
      (f : A → Call Tables B)
      → ((a : A) → Gives (Q a) E (f a) R)
      → (out : Result A × Tables) → Ends E Q out
      → Ends E R (next out f)
  next-Ends f gf (ok a, t) q = (gf a).at t q
  next-Ends f gf (err e, t) h = h

module _ {A : Type 0} {P E : Content → Type 0} {Q : A → Content → Type 0} where
  pub Gives-statement :
      (stmt : Call Tables A)
      → ((t : Tables) → P (content t) → Ends E Q (stmt t))
      → ((c : Content) → P c → E c)
      → Gives P E (statement stmt) Q
  unfolding statement
  Gives-statement stmt runs fails = record {
    at = λ t p. run-Ends P E Q stmt runs fails t.faults t p;
  }

  pub Gives-answer :
      (r : Result A)
      → ((a : A) (c : Content) → r ≡ ok a → P c → Q a c)
      → ((c : Content) → P c → E c)
      → Gives P E (answer r) Q
  unfolding answer
  Gives-answer r q fails = record {
    at = λ t p. answer-Ends P E Q r t (λ a e. q a (content t) e) fails p;
  }

  pub Gives-if :
      (b : Bool) {m n : Call Tables A}
      → (b ≡ true → Gives P E m Q)
      → (b ≡ false → Gives P E n Q)
      → Gives P E (if b then m else n) Q
  Gives-if true gm gn = gm refl
  Gives-if false gm gn = gn refl

  pub Gives-try :
      {F : Content → Type 0} {m : Call Tables A} → Gives P E m Q → Gives P F (try m) (Either E Q)
  unfolding ◌>>=◌
  Gives-try {F} {m} gm = record { at = λ t p. and_error-Ends E Q F (m t) (gm.at t p) }

  pub Gives-bind :
      {B : Type 0} {R : B → Content → Type 0} {m : Call Tables A} {f : A → Call Tables B}
      → Gives P E m Q
      → ((a : A) → Gives (Q a) E (f a) R)
      → Gives P E (m >>= f) R
  unfolding ◌>>=◌
  Gives-bind {B} {R} {m} {f} gm gf = record { at = λ t p. next-Ends E Q R f gf (m t) (gm.at t p) }

module _ {A : Type 0} {P E F : Content → Type 0} {Q : A → Content → Type 0} where
  pub Gives-weaken :
      {m : Call Tables A} {P' : Content → Type 0} {Q' : A → Content → Type 0}
      → ((c : Content) → P' c → P c)
      → ((a : A) (c : Content) → Q a c → Q' a c)
      → ((c : Content) → E c → F c)
      → Gives P E m Q
      → Gives P' F m Q'
  Gives-weaken {m} {P'} {Q'} before after errs gm = record {
    at = λ t p. weaker (m t) (gm.at t (before (content t) p));
  }
    where
      weaker : (out : Result A × Tables) → Ends E Q out → Ends F Q' out
      weaker (ok a, t) h = after a (content t) h
      weaker (err e, t) h = errs (content t) h

abbrev pub undone : Content → Content → Content
undone before c = record c { rows = before.rows }

module _ {A : Type 0} {P E F : Content → Type 0} {Q : A → Content → Type 0}
    (refused : (c : Content) → P c → F c)
    (failed : (before c : Content) → P before → E c → F (undone before c))
    (lost : (a : A) (before c : Content) → P before → Q a c → F (undone before c)) where
  commit-Ends :
      (before : Tables)
      → P (content before)
      → (a : A) (fs : List (Option Fault)) (t : Tables) → Q a (content t)
      → Ends F Q (committed before a (run_or_fail fs (answer (ok tt)) t))
  unfolding answer
  commit-Ends before p a [] t q = q
  commit-Ends before p a (none ∷ fs) t q = q
  commit-Ends before p a (some e ∷ fs) t q = lost a (content before) (content t) p q

  finished-Ends :
      (before : Tables)
      → P (content before)
      → (out : Result A × Tables) → Ends E Q out
      → Ends F Q (finished_tx before out)
  unfolding statement
  finished-Ends before p (ok a, t) q = commit-Ends before p a t.faults t q
  finished-Ends before p (err e, t) h = failed (content before) (content t) p h

  begun-Ends :
      (fn : Call Tables A)
      → Gives P E fn Q
      → (before : Tables) → P (content before)
      → (fs : List (Option Fault)) (t : Tables) → P (content t)
      → Ends F Q (begun_tx before fn (run_or_fail fs (answer (ok tt)) t))
  unfolding answer
  begun-Ends fn g before p [] t q = finished-Ends before p _ (g.at t q)
  begun-Ends fn g before p (none ∷ fs) t q =
      finished-Ends before p _ (g.at (record t { faults = fs }) q)
  begun-Ends fn g before p (some e ∷ fs) t q = refused (content t) q

  -- a transaction that fails leaves the rows that it found
  pub Gives-within_tx : {fn : Call Tables A} → Gives P E fn Q → Gives P F (within_tx fn) Q
  unfolding within_tx statement
  Gives-within_tx {fn} g = record { at = λ t p. begun-Ends fn g t p t.faults t p }
