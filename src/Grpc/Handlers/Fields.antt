-- ===== src/Grpc/Handlers/Fields.antt =====
-- internal/handler/grpcserver: how handlers read the fields of a request (admin_server.go,
-- auth_server.go)
use portal_backend.Prelude.{ℤ, pos, negsuc, ℕ, zero, suc, not, Option, none, some, [], ltb}
use portal_backend.Text.{Text, codes, is_empty}
use portal_backend.Domain.{UserStatus, status_none}
use portal_backend.Errors.{status, invalid_argument}
use portal_backend.World.{M, pure, ◌>>=◌, ◌>>◌, or_err, ensure, or_none}
use portal_backend.Service.UserService
use portal_backend.Grpc.Messages.{StatusPb, ProfileRequest, ListUsersRequest}
use portal_backend.Grpc.Mapper.{user_status_from_pb}
use portal_backend.Grpc.Server.{Server}

-- `if req == nil`: the request of a call that the transport has decoded is there
unfoldable pub required : {A : Type 0} → Option A → M A
required r = or_none (status invalid_argument (codes "request is required")) r

abbrev pub invalid_dob : Text
invalid_dob = codes "invalid dob format, expected YYYY-MM-DD"

unfoldable pub parse_dob : Server → Text → M ℕ
parse_dob s text = or_none (status invalid_argument invalid_dob) (s.parse_date text)

-- an optional field: not parsed where it is not there
unfoldable pub parse_optional_dob : Server → Option Text → M (Option ℕ)
parse_optional_dob s none = pure none
parse_optional_dob s (some text) = do dob ← parse_dob s text; pure (some dob)

-- parseUUIDField, for the two messages
unfoldable pub parse_uuid_field : Server → Text → Text → Text → M ℕ
parse_uuid_field s id missing invalid = do
  ensure (not (is_empty id)) (status invalid_argument missing)
  or_none (status invalid_argument invalid) (s.parse_uuid id)

unfoldable pub parse_user_id : Server → Text → M ℕ
parse_user_id s id = parse_uuid_field s id (codes "user_id is required") (codes "invalid user_id")

unfoldable pub parse_role_id : Server → Text → M ℕ
parse_role_id s id = parse_uuid_field s id (codes "role_id is required") (codes "invalid role_id")

unfoldable pub parse_permission_id : Server → Text → M ℕ
parse_permission_id s id =
    parse_uuid_field s id (codes "permission_id is required") (codes "invalid permission_id")

unfoldable pub parse_replacement : Server → Option Text → M (Option ℕ)
parse_replacement s none = pure none
parse_replacement s (some id) = do
  i ← or_err (status invalid_argument (codes "invalid replacement_role_id")) (parse_role_id s id)
  pure (some i)

-- the page and its size: 0 stands for the default, and the latter is at most 100
abbrev pub default_page : ℕ
default_page = 1

abbrev pub default_page_size : ℕ
default_page_size = 20

abbrev pub max_page_size : ℕ
max_page_size = 100

abbrev pub or_default : ℕ → ℤ → ℤ
or_default d (pos zero) = pos d
or_default d (pos (suc n)) = pos (suc n)
or_default d (negsuc n) = negsuc n

-- a number that is at least 1
unfoldable pub at_least_one : ℤ → M ℕ
at_least_one (pos (suc n)) = pure (suc n)
at_least_one _ = or_none (status invalid_argument (codes "invalid pagination")) none

unfoldable pub paging : ListUsersRequest → M (ℕ × ℕ)
paging req = do
  page ← at_least_one (or_default default_page req.page)
  size ← at_least_one (or_default default_page_size req.page_size)
  ensure (not (ltb max_page_size size)) (status invalid_argument (codes "invalid pagination"))
  pure (page, size)

unfoldable pub status_filter : Option StatusPb → M UserStatus
status_filter none = pure status_none
status_filter (some p) =
    or_none (status invalid_argument (codes "invalid status")) (user_status_from_pb p)

abbrev pub or_no_text : Option Text → Text
or_no_text none = []
or_no_text (some t) = t

-- the input of both updates of a profile
unfoldable pub profile_input : Server → ProfileRequest → M UserService.UpdateUserInput
profile_input s req = do
  dob ← parse_optional_dob s req.dob
  pure (record {
    username = req.username;
    first_name = req.first_name;
    last_name = req.last_name;
    dob = dob;
  })
