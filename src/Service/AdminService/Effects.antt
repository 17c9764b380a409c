-- ===== src/Service/AdminService/Effects.antt =====
-- internal/service/admin.go: DeleteUser, where it returns and where its audit log fails.
use portal_backend.Prelude.{
  ℕ, suc, Bool, true, false, ◌≡◌, refl, ◌∙◌, List, [], ◌∷◌, Option, some, any, first,
  any-update_where, ◌==◌, arith,
}
use portal_backend.Text.{text_eq}
use portal_backend.Domain.{role_code_admin}
use portal_backend.Errors.{app, err_audit_logger}
use portal_backend.Model.{Db, User, Role}
use portal_backend.World.{World, ok, err, query, write, ◌>>=◌, ask, deref, map_err, with_tx, ensure}
use portal_backend.World.Returns.{
  Returns, Returns-ok, Returns-bind, Returns-map_err, Returns-query, Returns-write, Returns-ensure,
  Returns-ask, Returns-pure, Returns-with_tx, Returns-deref_some, Returns-always,
}
use portal_backend.Repo.Updates.{found-some}
use portal_backend.Repo.Users
use portal_backend.Repo.Users.{is_live, has_id, loaded}
use portal_backend.Repo.Roles
use portal_backend.Repo.Audit
use portal_backend.Service.Audit.{AuditMeta, AuditUser, log}
use portal_backend.Service.Tables.{log-SameTables}
use portal_backend.Service.AdminService.{delete_user, is_other_admin}

-- A deletion that `a` may do: the user is live, and is no administrator other than `a`.
abbrev pub MayDelete : AuditUser → ℕ → Db → Type 0
MayDelete a i db =
    (user : User) × (loaded db (first (is_live i) db.users) ≡ some user)
    × (role_admin : Role) × (first (λ r. text_eq r.code role_code_admin) db.roles ≡ some role_admin)
    × (is_other_admin a user role_admin ≡ false)

delete_user-Returns :
    (meta : Option AuditMeta) (a : AuditUser) (i : ℕ) (w : World)
    → Returns
        (delete_user meta (some a) i)
        w
        (λ _ w'. MayDelete a i w.base × (any (is_live i) w'.base.users ≡ false))
unfolding delete_user Users.find_by_id Roles.find_by_code Users.delete
delete_user-Returns meta a i w = Returns-bind (
    Returns-map_err _ _ (
      Returns-query _ _ λ user is_user. Returns-bind (
        Returns-map_err _ _ (
          Returns-query _ _ λ r is_role. Returns-bind (
            Returns-deref_some _ (
              Returns-bind (
                Returns-ensure _ _ λ allowed. Returns-with_tx _ (
                  Returns-bind (
                    Returns-map_err _ _ (
                      Returns-write _ _ _ λ _ _. Returns-bind (
                        Returns-ask _ (
                          Returns-bind (
                            Returns-map_err _ _ (
                              Returns-always _ λ _. Returns-pure (
                                (
                                  user,
                                  found-some _ user is_user,
                                  r,
                                  found-some _ r is_role,
                                  ground arith,
                                ),
                                rw ((log-SameTables _ _ _ _ _ _).1.users) (
                                    any-update_where (is_live i) (is_live i) _ _
                                      (λ u h. ground arith) (λ u h. h)),
                              )))))))))))))))

-- Where a deletion returns, the user was live and no administrator other than the one who asks, and
-- no live user has the id any more.
pub delete_user_deletes :
    (meta : Option AuditMeta) (a : AuditUser) (i : ℕ) (w : World) (u : User) (w' : World)
    → delete_user meta (some a) i w ≡ (ok u, w')
    → MayDelete a i w.base × (any (is_live i) w'.base.users ≡ false)
delete_user_deletes meta a i w u w' = Returns-ok u w' (delete_user-Returns meta a i w)

any-loaded :
    (p : User → Bool) (db : Db) (u : User) (us : List User)
    → loaded db (first p us) ≡ some u
    → any p us ≡ true
any-loaded p db u [] h = ground arith
any-loaded p db u (v ∷ us) h = ground (arith, any-loaded p db u us)

-- Where the user is live and may be deleted, and of the effects only the insertion of the audit log
-- fails, the caller is told that the audit logger failed, and the user is deleted all the same.
pub delete_user_survives :
    (meta : Option AuditMeta) (a : AuditUser) (i : ℕ) (w : World)
    → ((n : ℕ) → w.env.fault n ≡ (n == suc (suc (suc (suc (suc w.step))))))
    → MayDelete a i w.base
    → ((delete_user meta (some a) i w).0 ≡ err (app err_audit_logger))
      × (any (is_live i) (delete_user meta (some a) i w).1.base.users ≡ false)
unfolding delete_user Users.find_by_id Roles.find_by_code Users.delete deref query write ◌>>=◌
    map_err with_tx ensure ask log Audit.create
delete_user_survives meta a i w only_log (user, is_user, r, is_role, allowed) =
    let s : ℕ = w.step in
    let f0 : w.env.fault s ≡ false = only_log s ∙ ground arith in
    let f1 : w.env.fault (suc s) ≡ false = only_log (suc s) ∙ ground arith in
    let f2 : w.env.fault (suc (suc s)) ≡ false = only_log _ ∙ ground arith in
    let f3 : w.env.fault (suc (suc (suc s))) ≡ false = only_log _ ∙ ground arith in
    let f5 : w.env.fault (suc (suc (suc (suc (suc s))))) ≡ true = only_log _ ∙ ground arith in
    rw
      (
        f0,
        is_user,
        f1,
        is_role,
        allowed,
        f2,
        f3,
        any-loaded (is_live i) w.base user w.base.users is_user,
        f5,
      )
      (refl, any-update_where (is_live i) (is_live i) _ _ (λ u h. ground arith) (λ u h. h))
