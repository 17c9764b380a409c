-- ===== src/Grpc/Limit.antt =====
-- internal/infrastructure/ratelimit/redis_limiter.go, and the interceptor of
-- internal/handler/grpcserver/interceptor/ratelimit.go. The headers of a refusal are left out.
use portal_backend.Prelude.{
  ℕ, ◌++◌, Bool, true, false, not, ◌&&◌, List, [], ◌∷◌, Option, none, some, ltb, ◌==◌,
  if◌then◌else◌,
}
use portal_backend.Text.{Text, codes, is_empty, trim_space, to_lower}
use portal_backend.Errors.{plain, status, unavailable, resource_exhausted}
use portal_backend.Model.{nil_id}
use portal_backend.World.{
  World, Outcome, ok, err, panic, M, pure, fail, crash, ◌>>=◌, ◌>>◌, ensure, ask, or_none,
}
use portal_backend.Access.Authenticator.{Principal}
use portal_backend.Grpc.Messages.{
  Request, method_of, login, register, resend_verification, forgot_password, list_users,
  create_user,
}
use portal_backend.Grpc.Policy.{
  KeyScope, scope_ip, scope_user, scope_identifier, scope_email, Phase, pre_auth, post_auth, Policy,
  LimitResult, policy_for_method, new_key_builder, scope_text, build_key,
}
use portal_backend.Grpc.Server.{Server, Call, header, or_empty, address_of}
pub mod Laws

module _ (s : Server) where
  -- RedisLimiter.Allow
  unfoldable pub allow : Text → Policy → M LimitResult
  allow key policy = do
    ensure (not (is_empty key)) (plain "rate limit key is empty")
    ensure (ltb 0 policy.limit) (plain "invalid rate limit for policy")
    ensure (ltb 0 policy.window) (plain "invalid rate limit window for policy")
    answer ← ask λ w.
        s.limiter w.step key policy.limit (if policy.burst == 0 then policy.limit else policy.burst)
          policy.window
    res ← or_none (plain "redis") answer
    pure (record {
      allowed = ltb 0 res.allowed;
      limit = policy.limit;
      remaining = res.remaining;
      retry_after = res.retry_after;
      reset_after = res.reset_after;
    })

-- the element of strings.Split(s, ",") that comes first
unfoldable pub before_comma : Text → Text
before_comma [] = []
before_comma (c ∷ s) = if c == 0x2C then [] else c ∷ before_comma s

abbrev pub or_else : Text → Text → Text
or_else s t = if is_empty s then t else s

-- extractClientIP: a name that the metadata lacks reads as an empty value, which is skipped too
unfoldable pub extract_client_ip : Server → Call → Text
unfolding header before_comma
extract_client_ip s call =
    or_else (trim_space (before_comma (or_empty (header call (codes "x-forwarded-for")))))
      (or_else (trim_space (or_empty (header call (codes "x-real-ip")))) (address_of s call.peer))

unfoldable pub identifier_from_request : World → Request → Text
identifier_from_request w (login r) = to_lower w.env.lower (trim_space r.identifier)
identifier_from_request w _ = []

-- the requests that have an e-mail address
unfoldable pub email_from_request : World → Request → Text
email_from_request w (register r) = to_lower w.env.lower (trim_space r.email)
email_from_request w (resend_verification e) = to_lower w.env.lower (trim_space e)
email_from_request w (forgot_password e) = to_lower w.env.lower (trim_space e)
email_from_request w (list_users r) = to_lower w.env.lower (trim_space (or_empty r.email))
email_from_request w (create_user r) = to_lower w.env.lower (trim_space r.email)
email_from_request w _ = []

-- userIDFromContext
unfoldable pub user_id_from_context : World → Option Principal → Text
user_id_from_context w none = []
user_id_from_context w (some p) = if p.user_id == nil_id then [] else w.env.uuid_text p.user_id

pub record RateLimitCheck : Type 0 where
  pub scope : KeyScope
  pub key : Text

abbrev pub refused : Server → KeyScope → ℕ → Text
refused s scope retry_after =
    codes "rate limit exceeded for "
    ++ (scope_text scope ++ (codes ", retry after " ++ s.duration_text retry_after))

module _ (s : Server) (call : Call) (principal : Option Principal) (req : Request) where
  unfoldable pub value_for_scope : World → KeyScope → Text
  value_for_scope w scope_ip = extract_client_ip s call
  value_for_scope w scope_identifier = identifier_from_request w req
  value_for_scope w scope_email = email_from_request w req
  value_for_scope w scope_user = user_id_from_context w principal

  unfoldable pub build_checks : World → Policy → List KeyScope → List RateLimitCheck
  build_checks w policy [] = []
  build_checks w policy (scope ∷ scopes) =
      let value = value_for_scope w scope in
      let rest = build_checks w policy scopes in
      if is_empty value
      then rest
      else record {
        scope = scope;
        key = build_key w (new_key_builder s.prefix) policy.name scope value;
      }
        ∷ rest

module _ (s : Server) {A : Type 0} (handler : M A) where
  -- What follows the answer of the limiter. After an error nothing more is checked.
  abbrev pub checked : KeyScope → Outcome LimitResult → M A → M A
  checked scope (ok result) rest =
      ensure result.allowed (status resource_exhausted (refused s scope result.retry_after)) >> rest
  checked scope (err e) rest =
      if s.fail_open then handler else fail (status unavailable (codes "rate limiter unavailable"))
  checked scope panic rest = crash

  unfoldable pub check_each : Policy → List RateLimitCheck → M A
  check_each policy [] = handler
  check_each policy (c ∷ cs) =
      λ w. let (r, w') = allow s c.key policy w in checked c.scope r (check_each policy cs) w'

abbrev pub same_phase : Phase → Phase → Bool
same_phase pre_auth pre_auth = true
same_phase post_auth post_auth = true
same_phase _ _ = false

-- the checks of a phase of a call
unfoldable pub phase_checks :
    Server → Call → Phase → Option Principal → Request → World → List RateLimitCheck
phase_checks s call phase principal req w =
    let policy = policy_for_method (method_of req) in
    if s.rate_limit_enabled && same_phase policy.phase phase
    then build_checks s call principal req w policy policy.scopes
    else []

-- rateLimitInterceptor
unfoldable pub rate_limit :
    Server → Call → Phase → Option Principal → Request → {A : Type 0} → M A → M A
rate_limit s call phase principal req handler = λ w.
    check_each s handler (policy_for_method (method_of req))
      (phase_checks s call phase principal req w) w
