-- ===== src/Errors/Category.antt =====
-- What the category of an error decides, in pkg/errors/errors.go and in the translation to gRPC
-- codes, internal/server/serverutils/grpcerror.go.
use entropy.Base.{String, Option, none, some, ◌==◌, ◌≡◌, refl, arith, eq_iff, if◌then◌else◌}
use entropy.Errors.{
  Error, GoError, own, err_invalid, err_not_found, err_conflict, is, as_error, to_error, error_text,
  or_internal, go_text,
}

-- gRPC's codes.Code, as far as the server uses it
pub data Code : Type 0 where
  not_found already_exists invalid_argument internal : Code

abbrev pub rpc_code : Error → Code
rpc_code e =
    if is (own e) (own err_not_found)
    then not_found
    else if is (own e) (own err_conflict)
    then already_exists
    else if is (own e) (own err_invalid)
    then invalid_argument
    else internal

-- the code and the text of the gRPC status
unfoldable pub to_rpc_error : GoError → Code × String
unfolding to_error error_text
to_rpc_error e = (rpc_code (to_error e), error_text (to_error e))

-- The code that an error category stands for.
abbrev pub code_of : Option Error → Code
code_of none = internal
code_of (some e) =
    if e.code == "not_found"
    then not_found
    else if e.code == "conflict"
    then already_exists
    else if e.code == "bad_request"
    then invalid_argument
    else internal

rpc_code-or_internal :
    (text : String) (o : Option Error) → rpc_code (or_internal text o) ≡ code_of o
rpc_code-or_internal text none = refl
rpc_code-or_internal text (some e) = ground (
  arith,
  eq_iff e.code "not_found",
  eq_iff "not_found" e.code,
  eq_iff e.code "conflict",
  eq_iff "conflict" e.code,
  eq_iff e.code "bad_request",
  eq_iff "bad_request" e.code,
)

-- The gRPC code of an error is that of its category: an error of the program, also one that is
-- wrapped, has the code that its category stands for, and each other error is an internal one.
pub to_rpc_error-code : (e : GoError) → (to_rpc_error e).0 ≡ code_of (as_error e)
unfolding to_rpc_error to_error
to_rpc_error-code e = rpc_code-or_internal (go_text e) (as_error e)
