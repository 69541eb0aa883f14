-- ===== src/Resource.antt =====
-- core/resource/resource.go and core/resource/state.go: the resource, its state and its checks.
pub mod Naming
pub mod Filter
pub mod Urn
use entropy.Base.{
  ℕ, String, Bool, true, false, not, ◌||◌, ◌&&◌, Option, none, some, List, [], ◌∷◌, ◌==◌,
  if◌then◌else◌, all,
}
use entropy.Base.Dict.{Dict, GoMap, entries, lookup, or_zero}
use entropy.Base.Text.{◌<>◌, trim_space}
use entropy.Errors.{own, err_invalid, with_msgf}
use entropy.Io.{Result, ok, err}
use Naming.{matches_naming, matches_naming_digits, naming_pattern, naming_pattern_digits}

-- json.RawMessage: nil, or the bytes of a JSON text
abbrev pub RawMessage : Type 0
RawMessage = Option String

abbrev pub raw_bytes : RawMessage → String
raw_bytes none = ""
raw_bytes (some text) = text

-- A nil slice that is handed to the driver of PostgreSQL is stored as an empty one, not as NULL.
abbrev pub non_nil : RawMessage → RawMessage
non_nil raw = some (raw_bytes raw)

-- len(raw) == 0
abbrev pub raw_is_empty : RawMessage → Bool
raw_is_empty raw = raw_bytes raw == ""

-- bytes.Equal: nil equals the empty slice
abbrev pub bytes_equal : RawMessage → RawMessage → Bool
bytes_equal a b = raw_bytes a == raw_bytes b

abbrev pub status_unspecified : String
status_unspecified = "STATUS_UNSPECIFIED"

abbrev pub status_pending : String
status_pending = "STATUS_PENDING"

abbrev pub status_error : String
status_error = "STATUS_ERROR"

abbrev pub status_deleted : String
status_deleted = "STATUS_DELETED"

abbrev pub status_completed : String
status_completed = "STATUS_COMPLETED"

-- The retries are counted up by one for each failed sync, and are left unbounded.
pub record SyncResult : Type 0 where
  pub retries : ℕ
  pub last_error : String

-- A time is a natural number, and 0 the zero time; `*time.Time` is an `Option`.
pub record State : Type 0 where
  pub status : String
  pub output : RawMessage
  pub module_data : RawMessage
  pub next_sync_at : Option ℕ
  pub sync_result : SyncResult

pub record Spec : Type 0 where
  pub configs : RawMessage
  pub dependencies : Dict String

pub record Resource : Type 0 where
  pub urn : String
  pub kind : String
  pub name : String
  pub project : String
  pub labels : GoMap String
  pub created_at : ℕ
  pub updated_at : ℕ
  pub updated_by : String
  pub created_by : String
  pub spec : Spec
  pub state : State

pub record UpdateRequest : Type 0 where
  pub spec : Spec
  pub labels : GoMap String
  pub user_id : String

pub record Revision : Type 0 where
  pub id : ℕ
  pub urn : String
  pub reason : String
  pub labels : GoMap String
  pub created_at : ℕ
  pub created_by : String
  pub spec : Spec

unfoldable pub is_terminal : State → Bool
is_terminal s = s.status == status_completed || s.status == status_error

unfoldable pub in_deletion : State → Bool
in_deletion s = s.status == status_deleted

-- `Clone` copies the status, the output and the module data: the next sync and the result of the
-- last one are those of a new state. A nil slice becomes an empty one.
unfoldable pub clone : State → State
clone s = record {
  status = s.status;
  output = some (raw_bytes s.output);
  module_data = some (raw_bytes s.module_data);
  next_sync_at = none;
  sync_result = record { retries = 0; last_error = "" };
}

-- `GenerateURN`
unfoldable pub generate_urn : String → String → String → String
generate_urn kind project name = "orn:entropy:" <> kind <> ":" <> project <> ":" <> name

-- `Validate` trims three fields in place before its checks, and a failed check leaves the receiver
-- trimmed; its callers drop the resource then, so only the error is returned.
unfoldable pub validate : Bool → Resource → Result Resource
validate is_create r =
    let kind = trim_space r.kind in
    let name = trim_space r.name in
    let project = trim_space r.project in
    let status = if r.state.status == "" then status_unspecified else r.state.status in
    let urn = if is_create then generate_urn kind project name else r.urn in
    if not (matches_naming kind)
    then err (own (with_msgf err_invalid ("kind must match pattern '" <> naming_pattern <> "'")))
    else if not (matches_naming_digits name)
    then err
        (own (with_msgf err_invalid ("name must match pattern '" <> naming_pattern_digits <> "'")))
    else if not (matches_naming project)
    then err (own (with_msgf err_invalid ("project must match pattern '" <> naming_pattern <> "'")))
    else ok (record r {
      urn = urn;
      kind = kind;
      name = name;
      project = project;
      state = record r.state { status = status };
    })
