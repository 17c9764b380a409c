-- ===== src/Grpc/Server.antt =====
-- What the server is built with, and what a call carries: context.go and grpcctx/context.go of
-- internal/handler/grpcserver. The dependencies are there; a nil one is not modelled.
use portal_backend.Prelude.{ℕ, Bool, not, List, [], ◌∷◌, Option, none, some, ◌==◌}
use portal_backend.Text.{Text, codes}
use portal_backend.Errors.{plain, status, unauthenticated}
use portal_backend.Model.{nil_id}
use portal_backend.World.{M, pure, ◌>>=◌, ◌>>◌, ensure, or_none}
use portal_backend.Service.Audit.{AuditMeta, AuditUser}
use portal_backend.Access.Authenticator.{Principal}
use portal_backend.Grpc.Messages.{Request}

-- what redis_rate answers
pub record LimitAnswer : Type 0 where
  pub allowed : ℕ
  pub remaining : ℕ
  pub retry_after : ℕ
  pub reset_after : ℕ

-- The packages that the server calls, and its configuration. `limiter` is the limiter of redis_rate
-- at the number of the effect, for a key, a rate, a burst and a period.
pub record Server : Type 0 where
  pub validate : Request → Bool  -- protovalidate
  pub parse_uuid : Text → Option ℕ
  pub parse_date : Text → Option ℕ  -- time.Parse "2006-01-02"
  pub format_date : ℕ → Text
  pub split_host : Text → Option Text  -- the host of net.SplitHostPort
  pub duration_text : ℕ → Text  -- Duration.String
  pub limiter : ℕ → Text → ℕ → ℕ → ℕ → Option LimitAnswer
  pub rate_limit_enabled : Bool
  pub fail_open : Bool
  pub prefix : Text

-- the peer's address, and the metadata of the call by their names
pub record Call : Type 0 where
  pub peer : Option Text
  pub metadata : Option (Text → List Text)

abbrev pub first_value : List Text → Option Text
first_value [] = none
first_value (v ∷ vs) = some v

-- the first value of a name in the metadata
unfoldable pub header : Call → Text → Option Text
header call name = elim call.metadata [ none ↦ none | some md ↦ first_value (md name) ]

abbrev pub or_empty : Option Text → Text
or_empty none = []
or_empty (some s) = s

abbrev pub host_or : Option Text → Text → Text
host_or none address = address
host_or (some host) address = host

abbrev pub address_of : Server → Option Text → Text
address_of s none = []
address_of s (some address) = host_or (s.split_host address) address

-- getAuditFromCtx
unfoldable pub get_audit : Server → Call → AuditMeta
get_audit s call = record {
  ip_address = address_of s call.peer;
  user_agent = or_empty (header call (codes "user-agent"));
}

abbrev pub actor_of : Principal → AuditUser
actor_of p = record {
  id = p.user_id;
  username = p.username;
  email = p.email;
  role_code = p.role_code;
}

-- getActorFromCtx
unfoldable pub get_actor : Option Principal → M AuditUser
get_actor principal = do
  p ← or_none (plain "missing principal in context") principal
  pure (actor_of p)

-- getSessionIDFromCtx
unfoldable pub get_session_id : Option Principal → M ℕ
get_session_id principal = do
  p ← or_none (plain "missing principal in context") principal
  ensure (not (p.session_id == nil_id)) (status unauthenticated (codes "missing session id"))
  pure p.session_id
