-- ===== src/Service/UserService/Effects.antt =====
-- What a change of the own password has checked and done when it returns.
use portal_backend.Prelude.{
  ℕ, suc, Bool, true, false, not, ◌&&◌, ◌≡◌, Option, some, any, first, any-update_where, arith,
}
use portal_backend.Text.{Text, text_eq}
use portal_backend.Text.Laws.{text_eq_refl}
use portal_backend.Model.{Db, User}
use portal_backend.World.{World, ok}
use portal_backend.World.Returns.{
  Returns, Returns-ok, Returns-bind, Returns-map_err, Returns-query, Returns-write, Returns-ensure,
  Returns-ask, Returns-with_tx, Returns-or_none, Returns-always, Returns-deref_some,
}
use portal_backend.Repo.Updates.{found-some}
use portal_backend.Repo.Users
use portal_backend.Repo.Users.{is_live, loaded}
use portal_backend.Service.Audit.{AuditMeta, AuditUser}
use portal_backend.Service.Tables.{log-SameTables}
use portal_backend.Service.UserService.{change_password, hash_password, text_or_empty, has_password}

-- a live row of the user with another hash
abbrev pub has_other_hash : Text → ℕ → User → Bool
has_other_hash hash i u = is_live i u && not (text_eq (text_or_empty u.password_hash) hash)

-- What a change from `current` to `new` has checked and done.
abbrev pub Changed : World → ℕ → Text → Text → Db → Type 0
Changed w i current new db =
    (user : User) × (loaded w.base (first (is_live i) w.base.users) ≡ some user)
    × (has_password user.password_hash ≡ true)
    × (w.env.bcrypt_compare (text_or_empty user.password_hash) current ≡ true)
    × (text_eq current new ≡ false)
    × (hash : Text) × (w.env.bcrypt_generate (suc (suc w.step)) new ≡ some hash)
    × (any (has_other_hash hash i) db.users ≡ false)

change_password-Returns :
    (meta : Option AuditMeta) (a : AuditUser) (current new confirm : Text) (w : World)
    → Returns
        (change_password meta (some a) current new confirm)
        w
        (λ _ w'. Changed w a.id current new w'.base)
unfolding change_password Users.find_by_id Users.update_password hash_password
change_password-Returns meta a current new confirm w = Returns-bind (
    Returns-deref_some _ (
      Returns-bind (
        Returns-map_err _ _ (
          Returns-query _ _ λ user is_user. Returns-bind (
            Returns-ensure _ _ λ _. Returns-bind (
              Returns-ensure _ _ λ has_hash. Returns-bind (
                Returns-ensure _ _ λ confirmed. Returns-bind (
                  Returns-ask _ (
                    Returns-bind (
                      Returns-ensure _ _ λ matches. Returns-bind (
                        Returns-ensure _ _ λ other. Returns-bind (
                          Returns-bind (
                            Returns-ask _ (
                              Returns-or_none _ _ λ hash is_hash. Returns-with_tx _ (
                                Returns-bind (
                                  Returns-map_err _ _ (
                                    Returns-write _ _ _ λ _ _. Returns-map_err _ _ (
                                      Returns-always _ λ _. (
                                        user,
                                        found-some _ user is_user,
                                        has_hash,
                                        matches,
                                        ground arith,
                                        hash,
                                        is_hash,
                                        rw ((log-SameTables _ _ _ _ _ _).1.users) (
                                            any-update_where (is_live a.id)
                                              (has_other_hash hash a.id) _ _
                                              (λ u h. let same = text_eq_refl hash in ground arith)
                                              (λ u h. ground arith)),
                                      )))))))))))))))))))

-- Where a change of the own password returns, the user is live, the current password matches the
-- stored hash, the new one differs from it, and every live row of the user has the new hash.
pub change_password_changes :
    (meta : Option AuditMeta) (a : AuditUser) (current new confirm : Text) (w w' : World)
    → change_password meta (some a) current new confirm w ≡ (ok tt, w')
    → Changed w a.id current new w'.base
change_password_changes meta a current new confirm w w' =
    Returns-ok tt w' (change_password-Returns meta a current new confirm w)
