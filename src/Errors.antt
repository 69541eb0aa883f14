-- ===== src/Errors.antt =====
-- pkg/errors/errors.go: the error type of the program, and the `error` values that it meets.
pub mod Category
use entropy.Base.{
  String, Option, none, some, Bool, true, false, List, [], ◌∷◌, ℕ, ◌==◌, ◌||◌, if◌then◌else◌,
}
use entropy.Base.Text.{◌<>◌}

pub record Error : Type 0 where
  pub code : String
  pub cause : String
  pub message : String

-- A Go `error` that the program handles: its own `Error`, the sentinels `sql.ErrNoRows`,
-- `context.Canceled` and `context.DeadlineExceeded`, a `*pq.Error` by the name of its code and its
-- text, a `*worker.RetryableError` by the text of its cause and its delay, an error of another
-- package by its text, and `fmt.Errorf("%w…")` by its text and what it wraps.
pub data GoError : Type 0 where
  own : Error → GoError
  no_rows : GoError
  cancelled : GoError
  deadline_exceeded : GoError
  pq_error : String → String → GoError
  retryable : String → ℕ → GoError
  foreign : String → GoError
  wrapped : String → GoError → GoError

abbrev pub err_invalid : Error
err_invalid = record { code = "bad_request"; cause = ""; message = "request is not valid" }

abbrev pub err_not_found : Error
err_not_found = record { code = "not_found"; cause = ""; message = "requested entity not found" }

abbrev pub err_conflict : Error
err_conflict = record {
  code = "conflict";
  cause = "";
  message = "an entity with conflicting identifier exists";
}

abbrev pub err_internal : Error
err_internal = record {
  code = "internal_error";
  cause = "";
  message = "some unexpected error occurred";
}

abbrev pub err_unsupported : Error
err_unsupported = record {
  code = "unsupported";
  cause = "";
  message = "requested feature is not supported";
}

-- The formatted text is the argument.
abbrev pub with_causef : Error → String → Error
with_causef e text = record e { cause = text }

abbrev pub with_msgf : Error → String → Error
with_msgf e text = record e { message = text }

-- the method `Is` of `Error`
abbrev pub error_is : Error → GoError → Bool
error_is e (own o) = o.code == e.code
error_is e _ = e.code == err_internal.code

-- `errors.Is(err, target)`, for a target that is an `Error` or one of the sentinels
abbrev pub is : GoError → GoError → Bool
is (own e) target = error_is e target
is no_rows no_rows = true
is cancelled cancelled = true
is deadline_exceeded deadline_exceeded = true
is (wrapped text inner) target = is inner target
is _ _ = false

-- the method `Error` of `Error`
unfoldable pub error_text : Error → String
error_text e =
    let msg = if e.message == "" then e.code else e.code <> ": " <> e.message in
    if e.cause == "" then msg else msg <> ": " <> e.cause

unfoldable pub go_text : GoError → String
unfolding error_text
go_text (own e) = error_text e
go_text no_rows = "sql: no rows in result set"
go_text cancelled = "context canceled"
go_text deadline_exceeded = "context deadline exceeded"
go_text (pq_error name text) = text
go_text (retryable cause after) = "retryable-error: " <> cause
go_text (foreign text) = text
go_text (wrapped text inner) = text

-- `Errorf`
abbrev pub errorf : String → GoError
errorf text = own (with_msgf err_internal text)

unfoldable pub one_of : GoError → List GoError → Bool
one_of e [] = false
one_of e (other ∷ others) = is e other || one_of e others

-- `errors.As(err, &e)` for an `Error`
unfoldable pub as_error : GoError → Option Error
as_error (own e) = some e
as_error (wrapped text inner) = as_error inner
as_error _ = none

abbrev pub or_internal : String → Option Error → Error
or_internal text (some e) = e
or_internal text none = with_causef err_internal text

-- `E`
unfoldable pub to_error : GoError → Error
unfolding as_error go_text
to_error g = or_internal (go_text g) (as_error g)
