-- ===== src/Service/AdminService/Access.antt =====
-- DeleteUser and UpdateRole of internal/service/admin.go, and what the check of an access token reads.
use Prim.Native.String.{String}
use portal_backend.Prelude.{ℕ, ◌≡◌, refl, ap, List, Option, none, some, arith}
use portal_backend.Text.{Text}
use portal_backend.Domain.{ActionName, RoleCode}
use portal_backend.Model.{Db, User, Role, AuditLog, Json}
use portal_backend.Errors.{plain}
use portal_backend.World.{World, base_ctx}
use portal_backend.World.Keeps.{
  Keeps, Keeps-pure, Keeps-ask, Keeps-query, Keeps-write, Keeps-with_tx, Keeps-if, Keeps-bind,
  Keeps-ensure, Keeps-map_err, Keeps-or_none, Keeps-deref,
}
use portal_backend.World.Stays.{
  Unrevoked, Stays, Stays-pure, Stays-or_none, Stays-write, Stays-bind, Stays-reads, stays_rules,
}
use portal_backend.World.Blind.{
  Blind, Blind-pure, Blind-ask, Blind-or_none, Blind-ensure, Blind-query, Blind-bind,
}
use portal_backend.Repo.Users
use portal_backend.Repo.Roles
use portal_backend.Repo.Sessions
use portal_backend.Repo.Audit
use portal_backend.Service.Audit.{AuditMeta, AuditUser, log, log_with_metadata, marshal_data}
use portal_backend.Service.AdminService.{delete_user, update_role}
use portal_backend.Service.Token.{parse}
use portal_backend.Access.Authenticator.{check_revoked, authenticate}

-- the tables that the authentication reads have the same rows
record SameAccess (a b : Db) : Type 0 where
  auth_sessions : b.auth_sessions ≡ a.auth_sessions
  roles : b.roles ≡ a.roles
  permissions : b.permissions ≡ a.permissions
  role_permissions : b.role_permissions ≡ a.role_permissions

SameAccess-refl : (a : Db) → SameAccess a a
SameAccess-refl a = record {
  auth_sessions = refl;
  roles = refl;
  permissions = refl;
  role_permissions = refl;
}

module _ (a : Db) where
  -- a change of the users or of the audit logs
  kept :
      {db : Db} {us : List User} {logs : List AuditLog}
      → SameAccess a db
      → SameAccess a (record db { users = us; action_logs = logs })
  kept h = record {
    auth_sessions = h.auth_sessions;
    roles = h.roles;
    permissions = h.permissions;
    role_permissions = h.role_permissions;
  }

  log-Keeps :
      (meta : Option AuditMeta) (action : ActionName) (actor target : Option AuditUser)
      → Keeps (λ _. SameAccess a) (log base_ctx meta action actor target)
  unfolding log Audit.create
  log-Keeps meta action actor target = Keeps-write _ _ _ (λ w db. kept)

  marshal_data-Keeps :
      (fields : Option (List (String × Json))) → Keeps (λ _. SameAccess a) (marshal_data fields)
  unfolding marshal_data
  marshal_data-Keeps none = Keeps-pure none
  marshal_data-Keeps (some fields) =
      Keeps-bind _ _
        (record {
          at = λ w.
              (Keeps-or_none {P = λ _. SameAccess a} (plain "json")
                  (w.env.marshal_fields fields)).at
                w;
        })
        (λ text. Keeps-pure _)

  log_with_metadata-Keeps :
      (meta : Option AuditMeta) (action : ActionName) (actor target : Option AuditUser)
      (fields : Option (List (String × Json)))
      → Keeps (λ _. SameAccess a) (log_with_metadata base_ctx meta action actor target fields)
  unfolding log_with_metadata Audit.create
  log_with_metadata-Keeps meta action actor target fields =
      Keeps-bind _ _ (marshal_data-Keeps fields) (λ text. Keeps-write _ _ _ (λ w db. kept))

  delete_user-Keeps :
      (meta : Option AuditMeta) (actor : Option AuditUser) (i : ℕ)
      → Keeps (λ _. SameAccess a) (delete_user meta actor i)
  unfolding delete_user Users.find_by_id Roles.find_by_code Users.delete
  delete_user-Keeps meta actor i = Keeps-bind _ _ (Keeps-map_err _ _ (Keeps-query _ _)) (λ user.
      Keeps-bind _ _ (Keeps-map_err _ _ (Keeps-query _ _)) (λ admin.
        Keeps-bind _ _ (Keeps-deref actor) (λ who. Keeps-bind _ _ (Keeps-ensure _ _) (λ _.
          Keeps-with_tx _ (
            Keeps-bind _ _ (Keeps-map_err _ _ (Keeps-write _ _ _ (λ w db. kept))) (λ _.
              Keeps-bind _ _ (Keeps-ask _) (λ now.
                Keeps-bind _ _ (Keeps-map_err _ _ (log-Keeps _ _ _ _)) (λ _. Keeps-pure _))))))))

  update_role-Keeps :
      (meta : Option AuditMeta) (actor : Option AuditUser) (i : ℕ) (code : RoleCode)
      → Keeps (λ _. SameAccess a) (update_role meta actor i code)
  unfolding update_role Users.find_by_id Roles.find_by_code Users.update_role
  update_role-Keeps meta actor i code = Keeps-bind _ _ (Keeps-ensure _ _) (λ _.
      Keeps-bind _ _ (Keeps-map_err _ _ (Keeps-query _ _)) (λ user.
        Keeps-bind _ _ (Keeps-map_err _ _ (Keeps-query _ _)) (λ role.
          Keeps-bind _ _ (Keeps-map_err _ _ (Keeps-query _ _)) (λ admin.
            Keeps-bind _ _ (Keeps-deref actor) (λ who. Keeps-bind _ _ (Keeps-ensure _ _) (λ _.
              Keeps-if _ _ _ (Keeps-pure _) (
                Keeps-with_tx _ (
                  Keeps-bind _ _ (Keeps-map_err _ _ (Keeps-write _ _ _ (λ w db. kept))) (λ _.
                    Keeps-bind _ _ (Keeps-map_err _ _ (log_with_metadata-Keeps _ _ _ _ _))
                      (λ _. Keeps-pure _))))))))))

module _ (a b : Db) (same : SameAccess a b) where
  is_revoked-Blind : (i : ℕ) → Blind a b (check_revoked i)
  unfolding check_revoked Sessions.is_revoked
  is_revoked-Blind i = record { at = λ w h. ground arith }

  session-Blind : (i : ℕ) → Blind a b (Sessions.find_active_by_id base_ctx i)
  unfolding Sessions.find_active_by_id
  session-Blind i = Blind-query _ (λ w. rw same.auth_sessions refl)

  found-SameAccess :
      (o : Option Role) → Roles.found_with_permissions b o ≡ Roles.found_with_permissions a o
  found-SameAccess none = refl
  found-SameAccess (some r) = rw (same.permissions, same.role_permissions) refl

  role-Blind : (i : ℕ) → Blind a b (Roles.get_with_permissions base_ctx i)
  unfolding Roles.get_with_permissions
  role-Blind i = Blind-query _ (λ w. rw same.roles (found-SameAccess _))

  authenticate-Blind : (token : Text) → Blind a b (authenticate token)
  unfolding authenticate parse
  authenticate-Blind token =
      Blind-bind _ _ (Blind-bind _ _ (Blind-ask _ (λ w. refl)) (λ read. Blind-or_none _ read))
        (λ claims. Blind-bind _ _ (is_revoked-Blind claims.session_id) (λ revoked.
          Blind-bind _ _ (Blind-ensure _ _) (λ _.
            Blind-bind _ _ (session-Blind claims.session_id) (λ session.
              Blind-bind _ _ (Blind-ensure _ _)
                (λ _. Blind-bind _ _ (role-Blind claims.role_id) (λ role. Blind-pure _))))))

authenticate-SameAccess :
    (token : Text) (w : World) (b : Db)
    → SameAccess w.base b
    → (authenticate token (record w { base = b })).0 ≡ (authenticate token w).0
authenticate-SameAccess token w b same =
    ap (λ x. x.0) ((authenticate-Blind w.base b same token).at w refl).0

-- neither operation revokes a session in the store
log-Stays :
    (meta : Option AuditMeta) (action : ActionName) (actor target : Option AuditUser)
    → Stays (log base_ctx meta action actor target)
unfolding log Audit.create
log-Stays meta action actor target = Stays-write _ _ _

marshal_data-Stays : (fields : Option (List (String × Json))) → Stays (marshal_data fields)
unfolding marshal_data
marshal_data-Stays none = Stays-pure none
marshal_data-Stays (some fields) =
    Stays-bind _ _ (Stays-reads _ (λ w. Stays-or_none _ _)) (λ text. Stays-pure _)

log_with_metadata-Stays :
    (meta : Option AuditMeta) (action : ActionName) (actor target : Option AuditUser)
    (fields : Option (List (String × Json)))
    → Stays (log_with_metadata base_ctx meta action actor target fields)
unfolding log_with_metadata Audit.create
log_with_metadata-Stays meta action actor target fields =
    Stays-bind _ _ (marshal_data-Stays fields) (λ text. Stays-write _ _ _)

delete_user-Stays :
    (meta : Option AuditMeta) (actor : Option AuditUser) (i : ℕ) → Stays (delete_user meta actor i)
unfolding delete_user Users.find_by_id Roles.find_by_code Users.delete
delete_user-Stays meta actor i = search (stays_rules, log-Stays) depth 30

update_role-Stays :
    (meta : Option AuditMeta) (actor : Option AuditUser) (i : ℕ) (code : RoleCode)
    → Stays (update_role meta actor i code)
unfolding update_role Users.find_by_id Roles.find_by_code Users.update_role
update_role-Stays meta actor i code = search (stays_rules, log_with_metadata-Stays) depth 30

-- A world as the effect of a number finds it, with what the open transaction sees: it means nothing to
-- an action outside one.
abbrev pub found_by : ℕ → Db → World → World
found_by n tx w = record w { step = n; tx = tx }

same_answer :
    (token : Text) (n : ℕ) (tx : Db) (w left : World)
    → SameAccess w.base left.base
    → Unrevoked w left
    → (authenticate token (found_by n tx left)).0 ≡ (authenticate token (found_by n tx w)).0
same_answer token n tx w left same h =
    rw (h.revoked, h.env) (authenticate-SameAccess token (found_by n tx w) left.base same)

-- However the deletion of a user or the change of its role ends, every access token is answered in the
-- world that it leaves, at any effect, as it was in the world before at that effect, that user's
-- tokens included: with the database, the revocation store and the environment of each.
pub tokens_outlive_changes :
    (meta : Option AuditMeta) (actor : Option AuditUser) (i : ℕ) (code : RoleCode) (token : Text)
    (n : ℕ) (tx : Db) (w : World)
    → let start : World = record w { tx = w.base } in
      ((authenticate token (found_by n tx (delete_user meta actor i start).1)).0
        ≡ (authenticate token (found_by n tx w)).0)
      × ((authenticate token (found_by n tx (update_role meta actor i code start).1)).0
          ≡ (authenticate token (found_by n tx w)).0)
tokens_outlive_changes meta actor i code token n tx w =
    let start : World = record w { tx = w.base } in
    let before : SameAccess w.base w.base × SameAccess w.base w.base =
      (SameAccess-refl w.base, SameAccess-refl w.base) in
    (
      same_answer token n tx start (delete_user meta actor i start).1
          ((delete_user-Keeps w.base meta actor i).at start before).0
          ((delete_user-Stays meta actor i).at start),
      same_answer token n tx start (update_role meta actor i code start).1
          ((update_role-Keeps w.base meta actor i code).at start before).0
          ((update_role-Stays meta actor i code).at start),
    )
