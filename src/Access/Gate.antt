-- ===== src/Access/Gate.antt =====
-- What a caller that was authenticated has, and what it may do.
use mathlib.Core.Path.{subst, ap, sym}
use portal_backend.Prelude.{
  ℕ, ◌≤◌, ◌<◌, Bool, true, ◌&&◌, ◌≡◌, refl, List, [], ◌∷◌, Option, none, some, any, first, select,
  first-passes, ◌==◌, arith,
}
use portal_backend.Text.{Text, codes, text_eq}
use portal_backend.Domain.{PermissionCode, permission_text}
use portal_backend.Model.{Db, TokenClaims, AuthSession, Role, Permission}
use portal_backend.World.{World, ok, moment, tick}
use portal_backend.World.Returns.{
  Returns, Returns-ok, Returns-bind, Returns-query, Returns-ensure, Returns-ask, Returns-pure,
  Returns-or_none, Returns-always,
}
use portal_backend.Repo.Updates.{found-some}
use portal_backend.Repo.Roles
use portal_backend.Repo.Roles.{granted, permissions_of, found_with_permissions}
use portal_backend.Repo.Sessions
use portal_backend.Service.Token.{parse}
use portal_backend.Access.Authenticator.{
  Principal, check_revoked, codes_of, principal_of, authenticate, has_permission,
}

check_revoked-Passes :
    (i : ℕ) (w : World)
    → ((check_revoked i w).1.base ≡ w.base)
      × ((check_revoked i w).1.env ≡ w.env)
      × (w.step ≤ (check_revoked i w).1.step)
unfolding check_revoked Sessions.is_revoked
check_revoked-Passes i w = (ground arith, ground arith, ground arith)

-- the permission of this code, granted to the role
abbrev pub is_granted : Db → ℕ → Text → Permission → Bool
is_granted db role code p = text_eq p.code code && any (granted role p.id) db.role_permissions

granted_code :
    (code : Text) (g : Permission → Bool) (ps : List Permission)
    → any (λ c. text_eq c code) (codes_of (select g ps)) ≡ true
    → any (λ p. text_eq p.code code && g p) ps ≡ true
granted_code code g [] h = h
granted_code code g (p ∷ ps) h = ground (arith, granted_code code g ps)

-- In a run from the one world to the other: at one of its effects the caller has a session that is
-- active by the clock of that effect and is the caller's; its role is there, and the permissions are
-- those that the role is granted.
abbrev pub Admitted : World → World → Principal → Type 0
Admitted w w' p =
    (n : ℕ) × (w.step ≤ n)
    × (n < w'.step)
    × (s : AuthSession) × (first (Sessions.is_active_id (w.env.clock n) p.session_id)
          w.base.auth_sessions
        ≡ some s)
    × ((s.user_id == p.user_id) ≡ true)
    × (role : Role) × (first (λ r. r.id == p.role_id) w.base.roles ≡ some role)
    × (p.permissions ≡ codes_of (permissions_of w.base role.id))

pub same_value : {A : Type 0} → (a b : A) → ok a ≡ ok b → a ≡ b
same_value a b h = cc

role_found :
    (db : Db) (o : Option Role) (r : Role × List Permission)
    → found_with_permissions db o ≡ ok r
    → (o ≡ some r.0) × (r.1 ≡ permissions_of db r.0.id)
role_found db none r h = cc
role_found db (some a) r h =
    subst (λ (v : Role × List Permission). (some a ≡ some v.0) × (v.1 ≡ permissions_of db v.0.id))
      (same_value (a, permissions_of db a.id) r h) (refl, refl)

-- what the two lookups find, after the revocation store was asked
admit :
    (w u : World) (claims : TokenClaims) (s : AuthSession) (role : Role × List Permission)
    → u.base ≡ w.base
    → u.env ≡ w.env
    → w.step ≤ u.step
    → first (Sessions.is_active_id (moment u) claims.session_id) u.base.auth_sessions ≡ some s
    → (s.user_id == claims.user_id) ≡ true
    → found_with_permissions u.base (first (λ r. r.id == claims.role_id) u.base.roles) ≡ ok role
    → Admitted w (tick (tick u)) (principal_of claims role)
unfolding principal_of
admit w u claims s role same_base same_env later is_session own is_role =
    let here = role_found u.base _ role is_role in
    (
      u.step,
      later,
      omega arith,
      s,
      rw (sym same_base, sym same_env) is_session,
      own,
      role.0,
      rw (sym same_base) here.0,
      rw (sym same_base) (ap codes_of here.1),
    )

authenticate-Returns :
    (token : Text) (w : World) → Returns (authenticate token) w (λ p w'. Admitted w w' p)
unfolding authenticate parse Sessions.find_active_by_id Roles.get_with_permissions
authenticate-Returns token w = Returns-bind (
    Returns-bind (
      Returns-ask _ (
        Returns-or_none _ _ λ claims _. Returns-bind (
          Returns-always _ λ revoked. Returns-bind (
            Returns-ensure _ _ λ _. Returns-bind (
              Returns-query _ _ λ s is_session. Returns-bind (
                Returns-ensure _ _ λ own. Returns-bind (
                  Returns-query _ _ λ role is_role. Returns-pure (
                    let asked = check_revoked-Passes claims.session_id (tick w) in
                    admit w (check_revoked claims.session_id (tick w)).1 claims s role asked.0
                      asked.1 (omega (arith, asked.2)) (found-some _ s is_session) own
                      is_role)))))))))

-- Where a token is accepted, the caller's session is active by the clock of some effect of that very
-- call and belongs to the caller, the role exists, and the permissions are those that the role is
-- granted.
pub authenticate_admits :
    (token : Text) (w : World) (p : Principal) (w' : World)
    → authenticate token w ≡ (ok p, w')
    → Admitted w w' p
authenticate_admits token w p w' = Returns-ok p w' (authenticate-Returns token w)

pub may-granted :
    (w w' : World) (p : Principal) (code : Text)
    → any (λ c. text_eq c code) p.permissions ≡ true
    → Admitted w w' p
    → any (is_granted w.base p.role_id code) w.base.permissions ≡ true
may-granted w w' p code may (n, from, to, s, is_session, own, role, is_role, same) =
    let db = w.base in
    let same_id : role.id ≡ p.role_id =
      ground (arith, first-passes (λ r. r.id == p.role_id) db.roles role is_role) in
    subst (λ i. any (is_granted db i code) db.permissions ≡ true) same_id
      (granted_code code (λ p. any (granted role.id p.id) db.role_permissions) db.permissions
        (subst (λ l. any (λ c. text_eq c code) l ≡ true) same may))

-- Where a token is accepted and the caller has a permission, there is a permission of that code which
-- the caller's role is granted.
pub has_permission_granted :
    (token : Text) (w : World) (p : Principal) (w' : World) (permission : PermissionCode)
    → authenticate token w ≡ (ok p, w')
    → has_permission p permission ≡ true
    → any (is_granted w.base p.role_id (codes (permission_text permission))) w.base.permissions
      ≡ true
unfolding has_permission
has_permission_granted token w p w' permission accepted may =
    may-granted w w' p (codes (permission_text permission)) may
      (authenticate_admits token w p w' accepted)
