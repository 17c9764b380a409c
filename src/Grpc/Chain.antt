-- ===== src/Grpc/Chain.antt =====
-- internal/handler/grpcserver/interceptor: recovery.go, validation.go, authentication.go and
-- authorization.go, and the chain that grpc.go makes of the interceptors and the handlers.
use portal_backend.Prelude.{
  Bool, true, false, not, ◌&&◌, List, [], ◌∷◌, Option, none, some, ◌==◌, if◌then◌else◌,
}
use portal_backend.Text.{Text, codes, text_eq, is_empty, trim_space}
use portal_backend.Domain.{PermissionCode}
use portal_backend.Errors.{status, internal, invalid_argument, unauthenticated, permission_denied}
use portal_backend.World.{
  World, Outcome, ok, err, panic, M, pure, ◌>>=◌, ◌>>◌, or_err, ensure, or_none,
}
use portal_backend.Access.Authenticator.{Principal, authenticate, has_permission}
use portal_backend.Grpc.Messages.{Request, Response, method_of}
use portal_backend.Grpc.Method.{is_public, permission_of}
use portal_backend.Grpc.Policy.{pre_auth, post_auth}
use portal_backend.Grpc.Server.{Server, Call, header}
use portal_backend.Grpc.Limit.{rate_limit}
use portal_backend.Grpc.Handlers.{dispatch}
pub mod Gate
pub mod Limits

-- RecoveryInterceptor
abbrev pub recovered : {A : Type 0} → Outcome A → Outcome A
recovered (ok a) = ok a
recovered (err e) = err e
recovered panic = err (status internal (codes "internal server error"))

unfoldable pub recovery : {A : Type 0} → M A → M A
recovery m w = let (r, w') = m w in (recovered r, w')

-- ValidationInterceptor; what the validator found is left out of the message
unfoldable pub validation : Server → Request → {A : Type 0} → M A → M A
validation s req handler =
    ensure (s.validate req) (status invalid_argument (codes "invalid request")) >> handler

-- the parts of strings.SplitN(s, " ", 2), where there are two
unfoldable pub cut_space : Text → Option (Text × Text)
cut_space [] = none
cut_space (c ∷ s) =
    let rest = cut_space s in
    if c == 0x20 then some ([], s) else elim rest [ none ↦ none | some r ↦ some (c ∷ r.0, r.1) ]

unfoldable pub read_bearer : Option (Text × Text) → Option Text
read_bearer none = none
read_bearer (some (scheme, token)) =
    if text_eq scheme (codes "Bearer") && not (is_empty (trim_space token))
    then some (trim_space token)
    else none

-- extractBearerTokenFromMetadata; each error of it is unauthenticated
unfoldable pub extract_bearer_token : Call → M Text
extract_bearer_token call = do
  value ←
      or_none (status unauthenticated (codes "missing token")) (header call (codes "authorization"))
  or_none (status unauthenticated (codes "invalid token"))
      (read_bearer (cut_space (trim_space value)))

-- AuthenticationInterceptor
unfoldable pub authentication : Call → Request → {A : Type 0} → (Option Principal → M A) → M A
authentication call req handler = if is_public (method_of req) then handler none else do
  token ← extract_bearer_token call
  principal ←
      or_err (status unauthenticated (codes "invalid authorize format")) (authenticate token)
  handler (some principal)

abbrev pub permitted : Option PermissionCode → Option Principal → {A : Type 0} → M A → M A
permitted none principal handler = handler
permitted (some permission) principal handler = do
  p ← or_none (status unauthenticated (codes "unauthorized")) principal
  ensure (has_permission p permission) (status permission_denied (codes "forbidden"))
  handler

-- PermissionInterceptor
unfoldable pub permission : Request → Option Principal → {A : Type 0} → M A → M A
permission req principal handler = permitted (permission_of (method_of req)) principal handler

-- a call, as the server of grpc.go runs it
unfoldable pub serve : Server → Call → Request → M Response
serve s call req = recovery (
    rate_limit s call pre_auth none req (
      validation s req (
        authentication call req λ principal.
          rate_limit s call post_auth principal req
            (permission req principal (dispatch s call principal req)))))
