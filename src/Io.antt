-- ===== src/Io.antt =====
-- How the calls of the program are modelled: pure code that may fail returns a `Result`; a call that
-- also reads and changes the outside world `W` takes it and returns it.
pub mod Total
pub mod Below
pub mod Keeps
pub mod Invert
pub mod Calls
use entropy.Base.{Option, none, some}
use entropy.Errors.{GoError}

pub data Result {ℓ} (A : Type ℓ) : Type ℓ where
  ok : A → Result A
  err : GoError → Result A

-- A call of a component that is an interface to the caller: it returns.
abbrev pub Call : Type 0 → Type 0 → Type 0
Call W A = W → Result A × W

-- A call that may go on for longer than its fuel: then it is `none`.
abbrev pub Go : Type 0 → Type 0 → Type 0
Go W A = W → Option (Result A × W)

module _ {W A : Type 0} where
  unfoldable pub pure : A → Go W A
  pure a w = some (ok a, w)

  unfoldable pub fail : GoError → Go W A
  fail e w = some (err e, w)

  unfoldable pub call : Call W A → Go W A
  call m w = some (m w)

  unfoldable pub lift : Result A → Go W A
  lift r w = some (r, w)

  abbrev pub returning : Option (Result A × W) → Option (Result (Result A) × W)
  returning none = none
  returning (some (r, w)) = some (ok r, w)

  -- `v, err := m()`: the error is a value
  unfoldable pub attempt : Go W A → Go W (Result A)
  attempt m w = returning (m w)

module _ {W A B : Type 0} where
  abbrev pub resume : Option (Result A × W) → (A → Go W B) → Option (Result B × W)
  resume none f = none
  resume (some (ok a, w)) f = f a w
  resume (some (err e, w)) f = some (err e, w)

  infixl 5 ◌>>=◌ ◌>>◌
  -- `if err != nil { return nil, err }`; opening this opens the calls above too
  unfoldable pub ◌>>=◌ : Go W A → (A → Go W B) → Go W B
  unfolding pure fail call lift attempt
  ◌>>=◌ m f w = resume (m w) f

  abbrev pub ◌>>◌ : Go W A → Go W B → Go W B
  m >> n = m >>= λ _. n
