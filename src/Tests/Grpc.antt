-- ===== src/Tests/Grpc.antt =====
-- Runs of the server of internal/handler/grpcserver.
use portal_backend.Prelude.{
  pos, ℕ, Bool, true, false, ◌≡◌, refl, [], ◌∷◌, none, some, List, ◌↔◌, ◌⊎◌,
}
use portal_backend.Text
use portal_backend.Text.{codes, text_eq}
use portal_backend.Domain.{user_list, active, status_is_valid}
use portal_backend.World
use portal_backend.World.{World, Outcome}
use portal_backend.World.Gated.{Refused}
use portal_backend.Repo
use portal_backend.Repo.Users
use portal_backend.Repo.Audit
use portal_backend.Service
use portal_backend.Service.Audit as AuditLogger
use portal_backend.Service.AdminService
use portal_backend.Service.Auth.Passwords
use portal_backend.Access.Authenticator.{Principal}
use portal_backend.Grpc.Method
use portal_backend.Grpc.Method.{
  is_public, permission_of, logout_all_method, logout_method, list_users_method,
}
use portal_backend.Grpc.Method.Table.{GatedAs, methods_are_gated, method_for}
use portal_backend.Grpc.Messages
use portal_backend.Grpc.Messages.{
  Request, Response, ListUsersRequest, pb_active, method_of, message, list_users, forgot_password,
  verify_email,
}
use portal_backend.Grpc.Mapper
use portal_backend.Grpc.Mapper.{user_status_to_pb, user_status_from_pb}
use portal_backend.Grpc.Mapper.Laws.{user_status_roundtrip}
use portal_backend.Grpc.Policy
use portal_backend.Grpc.Policy.{pre_auth, policy_for_method}
use portal_backend.Grpc.Server
use portal_backend.Grpc.Server.{Server, Call}
use portal_backend.Grpc.Limit
use portal_backend.Grpc.Handlers
use portal_backend.Grpc.Handlers.Fields
use portal_backend.Grpc.Handlers.AuthServer
use portal_backend.Grpc.Handlers.AdminServer
use portal_backend.Grpc.Handlers.Paging.{Paged, list_users_is_Paged}
use portal_backend.Grpc.Chain
use portal_backend.Grpc.Chain.Gate.{Cleared, serve_is_gated}
use portal_backend.Grpc.Chain.Limits.{Passed, serve_was_limited, default_policy_unlimited}
use portal_backend.Tests.{calm, returned}
use portal_backend.Tests.Access.{guarded}

-- a server whose limiter lets everything through
abbrev pub server : Server
server = record {
  validate = λ r. true;
  parse_uuid = λ t. none;
  parse_date = λ t. none;
  format_date = λ n. [];
  split_host = λ t. none;
  duration_text = λ n. [];
  limiter = λ n key rate burst period.
      some (record { allowed = 1; remaining = 1; retry_after = 0; reset_after = 0 });
  rate_limit_enabled = true;
  fail_open = false;
  prefix = [];
}

abbrev first_of : Bool → List Text.Text
first_of true = codes "Bearer t" ∷ []
first_of false = []

-- a call with a token
abbrev call : Call
call = record {
  peer = some (0x31 ∷ []);
  metadata = some (λ name. first_of (text_eq name (codes "authorization")));
}

abbrev listing : ListUsersRequest
listing = record {
  page = pos 0;
  page_size = pos 10;
  username = none;
  email = none;
  full_name = none;
  dob = none;
  role_code = none;
  status = some pb_active;
  include_deleted = false;
}

serve_is_gated_example :
    Refused guarded (Chain.serve server call (list_users listing) guarded)
    ⊎ Cleared guarded call (permission_of list_users_method)
unfolding is_public method_of
serve_is_gated_example = serve_is_gated server call (list_users listing) guarded refl

abbrev reset : Request
reset = forgot_password (0x40 ∷ 0x71 ∷ [])

abbrev run : Outcome Response × World
run = Chain.serve server call reset calm

serve_was_limited_example :
    Passed server
      (policy_for_method (method_of reset))
      0
      (Limit.phase_checks server call pre_auth none reset calm)
unfolding Chain.serve Chain.recovery Chain.validation Chain.authentication Chain.permission
    Limit.rate_limit Limit.check_each Limit.phase_checks Limit.build_checks Limit.value_for_scope
    Limit.email_from_request Limit.extract_client_ip Limit.before_comma Limit.allow
    Policy.policy_for_method Policy.method_policy Policy.normalize_policy Policy.default_policy
    Policy.build_key Policy.normalize_key Policy.new_key_builder Method.is_public
    Method.permission_of Messages.method_of Handlers.dispatch AuthServer.forgot_password_handler
    Fields.required Server.get_audit Server.header Passwords.forgot_password Passwords.forgot_for
    Users.find_by_email World.◌>>=◌ World.map_err World.ask World.query World.or_none World.ensure
    Users.preload Repo.normalize Service.normalize_identity Text.to_lower Text.trim_space
    Text.is_space Text.trim_left Text.trim_right
serve_was_limited_example =
    serve_was_limited server call reset calm
      (message (codes "If the account exists, a password reset email has been sent")) run.1 refl
      refl

abbrev seven : World.M ℕ
seven = World.pure 7

default_policy_unlimited_example :
    Limit.rate_limit server call pre_auth none (verify_email []) seven calm ≡ seven calm
unfolding Policy.policy_for_method Policy.method_policy Policy.normalize_policy
    Policy.default_policy Messages.method_of
default_policy_unlimited_example =
    default_policy_unlimited server call pre_auth (verify_email []) seven calm refl

abbrev lister : Principal
lister = record {
  user_id = 10;
  username = [];
  email = [];
  role_id = 3;
  role_code = [];
  session_id = 20;
  permissions = [];
}

abbrev page_run : Outcome Response × World
page_run = AdminServer.list_users_handler server call (some lister) (some listing) calm

list_users_is_Paged_example : Paged (returned (message []) page_run.0)
unfolding AdminServer.list_users_handler Fields.required Fields.paging Fields.at_least_one
    Fields.parse_optional_dob Fields.status_filter Server.get_actor Server.get_audit Server.header
    Mapper.user_status_from_pb Mapper.list_users_result_to_pb Mapper.users_to_pb
    Mapper.user_model_to_pb Mapper.role_summary_model_to_pb Mapper.user_status_to_pb
    AdminService.list_users Users.list_users Users.matches Users.preload Audit.create
    AuditLogger.log AuditLogger.audit_row AuditLogger.log_with_metadata AuditLogger.marshal_data
    AuditLogger.map_user_to_audit_user World.◌>>=◌ World.map_err World.log_err World.ask World.query
    World.write World.or_none World.ensure Text.trim_space Text.trim_left Text.trim_right
    Text.is_space Repo.normalize Service.normalize_identity Text.to_lower AdminService.filter_role
    status_is_valid
list_users_is_Paged_example =
    list_users_is_Paged server call (some lister) (some listing) calm
      (returned (message []) page_run.0) page_run.1 refl

user_status_roundtrip_example :
    (user_status_from_pb pb_active ≡ some active)
    ↔ ((status_is_valid active ≡ true) × (user_status_to_pb active ≡ pb_active))
user_status_roundtrip_example = user_status_roundtrip active pb_active

methods_are_gated_example :
    GatedAs list_users_method
    × (permission_of list_users_method ≡ some user_list ↔ list_users_method ≡ method_for user_list)
    × (is_public (method_for user_list) ≡ false)
methods_are_gated_example = methods_are_gated list_users_method user_list
