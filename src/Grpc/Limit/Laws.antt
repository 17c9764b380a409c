-- ===== src/Grpc/Limit/Laws.antt =====
-- What the limiter and its interceptor do to a call.
use portal_backend.Prelude.{refl, List, [], ◌∷◌, Option, ◌⊎◌, inl}
use portal_backend.Text.{Text}
use portal_backend.World.{World, Outcome, ok, err, panic, M}
use portal_backend.World.Gated.{
  Same, Same-trans, Quiet, Quiet-bind, Quiet-pure, Quiet-ask, Quiet-or_none, Quiet-ensure, Gated,
  Refused, Gated-ensure, Gated-if, Gated-fail,
}
use portal_backend.Access.Authenticator.{Principal}
use portal_backend.Grpc.Messages.{Request}
use portal_backend.Grpc.Policy.{KeyScope, Phase, Policy, LimitResult}
use portal_backend.Grpc.Server.{Server, Call}
use portal_backend.Grpc.Limit

pub allow-Quiet : (s : Server) (key : Text) (policy : Policy) → Quiet (Limit.allow s key policy)
unfolding Limit.allow
allow-Quiet s key policy = Quiet-bind _ _ (Quiet-ensure _ _) λ _.
    Quiet-bind _ _ (Quiet-ensure _ _) λ _. Quiet-bind _ _ (Quiet-ensure _ _) λ _.
      Quiet-bind _ _ (Quiet-ask _) λ answer. Quiet-bind _ _ (Quiet-or_none _ _) λ res. Quiet-pure _

module _ (s : Server) {A : Type 0} (handler : M A) {d : World} {R : Type 0}
    (h : Gated d handler R) where
  checked-Gated :
      (scope : KeyScope) (r : Outcome LimitResult) (rest : M A) (w : World)
      → Same d w
      → Gated d rest R
      → Refused d (Limit.checked s handler scope r rest w) ⊎ R
  checked-Gated scope (ok result) rest w e k = (Gated-ensure _ _ rest (λ _. k)).at w e
  checked-Gated scope (err x) rest w e k =
      (Gated-if s.fail_open handler _ (λ _. h) (λ _. Gated-fail _)).at w e
  checked-Gated scope panic rest w e k = inl (refl, e)

  check_each-Gated :
      (policy : Policy) (checks : List Limit.RateLimitCheck)
      → Gated d (Limit.check_each s handler policy checks) R
  unfolding Limit.check_each
  check_each-Gated policy [] = h
  check_each-Gated policy (c ∷ cs) = record {
    at = λ w e.
        let x = Limit.allow s c.key policy w in
        checked-Gated c.scope x.0 (Limit.check_each s handler policy cs) x.1
          (Same-trans d w x.1 e ((allow-Quiet s c.key policy).at w)) (check_each-Gated policy cs);
  }

-- The limiter changes nothing, and what gates a handler gates the limited handler.
pub rate_limit-Gated :
    (s : Server) (call : Call) (phase : Phase) (principal : Option Principal) (req : Request)
    {A : Type 0} (handler : M A) {d : World} {R : Type 0}
    → Gated d handler R
    → Gated d (Limit.rate_limit s call phase principal req handler) R
unfolding Limit.rate_limit
rate_limit-Gated s call phase principal req handler h = record {
  at = λ w e. (check_each-Gated s handler h _ _).at w e;
}
