-- ===== src/Grpc/Chain/Gate.antt =====
-- What stands between a call and its handler.
use mathlib.Core.Path.{subst, ap}
use portal_backend.Prelude.{ℕ, true, false, ◌≡◌, Option, none, some, any, arith, ◌⊎◌, inl, inr}
use portal_backend.Text.{Text, codes, text_eq}
use portal_backend.Errors.{Error, status, unauthenticated}
use portal_backend.Domain.{PermissionCode, permission_text}
use portal_backend.Model.{Db}
use portal_backend.World
use portal_backend.World.{World, Outcome, ok, err, panic, M, ◌>>=◌, or_err, ensure, or_none}
use portal_backend.World.Gated.{
  Same, Same-refl, Quiet, Quiet-bind, Quiet-pure, Quiet-ask, Quiet-or_none, Quiet-ensure,
  Quiet-query, Quiet-map_err, Gated, Refused, Gated-ensure, Gated-if, Gated-bind, Gated-held,
  Gated-some,
}
use portal_backend.Access.Authenticator.{Principal, authenticate, has_permission, check_revoked}
use portal_backend.Access.Gate.{Admitted, is_granted, authenticate_admits, may-granted}
use portal_backend.Grpc.Method.{is_public, permission_of}
use portal_backend.Grpc.Messages.{Request, method_of}
use portal_backend.Grpc.Server.{Server, Call}
use portal_backend.Grpc.Limit.Laws.{rate_limit-Gated}
use portal_backend.Grpc.Chain
use portal_backend.Repo.Sessions
use portal_backend.Repo.Roles
use portal_backend.Service.Token.{parse}

check_revoked-Quiet : (i : ℕ) → Quiet (check_revoked i)
unfolding check_revoked Sessions.is_revoked
check_revoked-Quiet i = record {
  at = λ w. record { base = ground arith; revoked = ground arith; env = ground arith };
}

authenticate-Quiet : (token : Text) → Quiet (authenticate token)
unfolding authenticate parse Sessions.find_active_by_id Roles.get_with_permissions
authenticate-Quiet token =
    Quiet-bind _ _ (Quiet-bind _ _ (Quiet-ask _) λ _. Quiet-or_none _ _) λ claims.
      Quiet-bind _ _ (check_revoked-Quiet claims.session_id) λ revoked.
        Quiet-bind _ _ (Quiet-ensure _ _) λ _. Quiet-bind _ _ (Quiet-query _ _) λ session.
          Quiet-bind _ _ (Quiet-ensure _ _)
            λ _. Quiet-bind _ _ (Quiet-query _ _) λ role. Quiet-pure _

extract_bearer_token-Quiet : (call : Call) → Quiet (Chain.extract_bearer_token call)
unfolding Chain.extract_bearer_token
extract_bearer_token-Quiet call = Quiet-bind _ _ (Quiet-or_none _ _) λ value. Quiet-or_none _ _

-- The permission that a method asks for, where it asks for one, is granted to the caller's role.
abbrev pub Granted : Db → Principal → Option PermissionCode → Type 0
Granted db p none = Unit {0}
Granted db p (some code) =
    any (is_granted db p.role_id (codes (permission_text code))) db.permissions ≡ true

-- The token that the call carries is accepted, in an environment and with a revocation store and a
-- database that are those of the call, as the principal's; the principal is admitted there, and has
-- what the method asks for.
abbrev pub Cleared : World → Call → Option PermissionCode → Type 0
Cleared w call permission =
    (token : Text) × (p : Principal) × (v : World) × Same w v
    × ((Chain.extract_bearer_token call v).0 ≡ ok token)
    × (u : World) × Same w u
    × ((authenticate token u).0 ≡ ok p)
    × Admitted u (authenticate token u).1 p
    × Granted w.base p permission

-- all of it but the permission
abbrev Authenticated : World → Call → Principal → Type 0
Authenticated w call p =
    (token : Text) × (v : World) × Same w v
    × ((Chain.extract_bearer_token call v).0 ≡ ok token)
    × (u : World) × Same w u
    × ((authenticate token u).0 ≡ ok p)
    × Admitted u (authenticate token u).1 p

clear :
    (w : World) (call : Call) (p : Principal) (permission : Option PermissionCode)
    → Authenticated w call p
    → Granted w.base p permission
    → Cleared w call permission
clear w call p permission (token, v, same, is_token, u, same', accepted, admitted) granted =
    (token, p, v, same, is_token, u, same', accepted, admitted, granted)

permits :
    (w : World) (call : Call) (p : Principal) (code : Text)
    → Authenticated w call p
    → any (λ c. text_eq c code) p.permissions ≡ true
    → any (is_granted w.base p.role_id code) w.base.permissions ≡ true
permits w call p code (token, v, same, is_token, u, same', accepted, admitted) may =
    subst (λ d. any (is_granted d p.role_id code) d.permissions ≡ true) same'.base
      (may-granted u (authenticate token u).1 p code may admitted)

or_err_ok :
    {A : Type 0} (e : Error) (r : Outcome A) (a : A)
    → World.replace_err (λ _. e) r ≡ ok a
    → r ≡ ok a
or_err_ok e (ok b) a h = h
or_err_ok e (err x) a h = cc
or_err_ok e panic a h = cc

module _ {A : Type 0} {d : World} where
  permitted-Gated :
      (call : Call) (permission : Option PermissionCode) (p : Principal) (handler : M A)
      → Authenticated d call p
      → Gated d (Chain.permitted permission (some p) handler) (Cleared d call permission)
  unfolding has_permission
  permitted-Gated call none p handler a = Gated-held _ (clear d call p none a tt)
  permitted-Gated call (some code) p handler a = Gated-some _ p _ (
      Gated-ensure (has_permission p code) _ handler λ may.
        Gated-held _
          (clear d call p (some code) a (permits d call p (codes (permission_text code)) a may)))

  recovered-Refused : (x : Outcome A × World) → Refused d x → Refused d (Chain.recovered x.0, x.1)
  recovered-Refused (ok a, w) h = h
  recovered-Refused (err e, w) h = h
  recovered-Refused (panic, w) h = h

  recovery-Gated : (m : M A) {R : Type 0} → Gated d m R → Gated d (Chain.recovery m) R
  unfolding Chain.recovery
  recovery-Gated m g = record {
    at = λ w h. elim (g.at w h) [ inl r ↦ inl (recovered-Refused (m w) r) | inr r ↦ inr r ];
  }

  validation-Gated :
      (s : Server) (req : Request) (handler : M A) {R : Type 0}
      → Gated d handler R
      → Gated d (Chain.validation s req handler) R
  unfolding Chain.validation
  validation-Gated s req handler g = Gated-ensure _ _ handler (λ _. g)

  authentication-Gated :
      (call : Call) (req : Request) (handler : Option Principal → M A) {R : Type 0}
      → is_public (method_of req) ≡ false
      → ((p : Principal) → Authenticated d call p → Gated d (handler (some p)) R)
      → Gated d (Chain.authentication call req handler) R
  unfolding Chain.authentication World.map_err
  authentication-Gated call req handler private g =
      Gated-if (is_public (method_of req)) (handler none) _ (λ h. ground (arith, h, private))
        λ _. Gated-bind _ _ (extract_bearer_token-Quiet call) λ token v same is_token.
          Gated-bind _ _ (Quiet-map_err _ _ (authenticate-Quiet token)) λ p u same' o.
            let r = authenticate token u in
            let accepted = or_err_ok (status unauthenticated _) r.0 p o in
            g p (
              token,
              v,
              same,
              is_token,
              u,
              same',
              accepted,
              authenticate_admits token u p r.1 (ap (λ x. (x, r.1)) accepted),
            )

serve-Gated :
    (s : Server) (call : Call) (req : Request) (d : World)
    → is_public (method_of req) ≡ false
    → Gated d (Chain.serve s call req) (Cleared d call (permission_of (method_of req)))
unfolding Chain.serve Chain.permission
serve-Gated s call req d private = recovery-Gated _ (
    rate_limit-Gated s call _ none req _ (
      validation-Gated s req _ (
        authentication-Gated call req _ private
          λ p known. rate_limit-Gated s call _ (some p) req _ (permitted-Gated call _ p _ known))))

-- A call of a method that is not public is refused, with no success and no change of the committed
-- database or the revocation store, unless the token that it carries is accepted as a principal's
-- who has a session of its own that is active by the clock of an effect of that check, and whose role
-- is granted the permission that the method asks for, where it asks for one.
pub serve_is_gated :
    (s : Server) (call : Call) (req : Request) (w : World)
    → is_public (method_of req) ≡ false
    → Refused w (Chain.serve s call req w) ⊎ Cleared w call (permission_of (method_of req))
serve_is_gated s call req w private = (serve-Gated s call req w private).at w (Same-refl w)
