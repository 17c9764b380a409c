-- ===== src/Service/Auth/Login/Effects.antt =====
-- What a login that returns has checked and done.
use portal_backend.Prelude.{
  ℕ, Bool, true, ◌&&◌, ◌≡◌, ◌∙◌, List, [], ◌∷◌, ◌++◌, Option, some, any, first, any-append_one,
  is_none, is_some, ◌==◌, arith, if◌then◌else◌,
}
use portal_backend.Text.{Text, text_eq}
use portal_backend.Text.Laws.{text_eq_refl}
use portal_backend.Model.{Db, User, AuthSession, RefreshToken}
use portal_backend.World.{World, ok, base_ctx, tick}
use portal_backend.World.Returns.{
  Returns, Returns-ok, Returns-bind, Returns-map_err, Returns-query, Returns-write, Returns-ensure,
  Returns-ask, Returns-pure, Returns-with_tx, Returns-or_none, Returns-log_err, Returns-mono,
  Returns-if_at,
}
use portal_backend.Repo.{normalize}
use portal_backend.Repo.Users
use portal_backend.Repo.Users.{live, loaded}
use portal_backend.Repo.Sessions
use portal_backend.Repo.Refresh
use portal_backend.Service.{normalize_identity}
use portal_backend.Service.Audit.{AuditMeta, AuditUser, log}
use portal_backend.Domain.{ActionName, login}
use portal_backend.Service.Tables.{log-SameTables}
use portal_backend.Service.Token.{generate_access_token, generate_refresh_token, hash_token}
use portal_backend.Service.UserService.{has_password, text_or_empty}
use portal_backend.Service.Auth.Login.{
  LoginResult, find_by_identifier, authenticate, log_in, open_session, new_session,
  new_refresh_token,
}

-- The user of an identifier: by e-mail where the identifier is an address, else by username, and
-- only one that is not soft-deleted.
abbrev pub identified : World → Text → Option User
identified w name = loaded w.base (
    first
      (λ u.
        text_eq (w.env.sql_key (if w.env.parse_address name then u.email else u.username))
          (normalize w name)
        && live u)
      w.base.users)

module _ {Q : Option User → World → Type 0} where
  find_by_identifier-Returns :
      (name : Text) (w : World)
      → ((o : Option User) → identified w name ≡ o → Q o (tick w))
      → Returns (find_by_identifier name) w Q
  unfolding find_by_identifier Users.find_by_email Users.find_by_username normalize
  find_by_identifier-Returns name w h =
      Returns-if_at (λ v. v.env.parse_address name) (Users.find_by_email base_ctx name)
        (Users.find_by_username base_ctx name)
        (λ e. Returns-query _ _ (λ o is_found. h o (ground (arith, e, is_found))))
        (λ e. Returns-query _ _ (λ o is_found. h o (ground (arith, e, is_found))))

-- What has been checked of a user that logs in.
pub record Checked (w : World) (identifier password : Text) (user : User) : Type 0 where
  pub is_identified : identified w (normalize_identity w identifier) ≡ some user
  pub has_hash : has_password user.password_hash ≡ true
  pub matches : w.env.bcrypt_compare (text_or_empty user.password_hash) password ≡ true
  pub is_verified : is_some user.email_verified_at ≡ true
  pub is_not_deleted : is_none user.deleted_at ≡ true

module _ {Q : User → World → Type 0} where
  authenticate-Returns :
      (identifier password : Text) (w : World)
      → ((u : User) → Checked w identifier password u → Q u (tick (tick (tick w))))
      → Returns (authenticate identifier password) w Q
  unfolding authenticate normalize_identity normalize
  authenticate-Returns identifier password w h = Returns-bind (
      Returns-ask _ (
        Returns-bind (
          Returns-map_err _ _ (
            find_by_identifier-Returns _ _ λ o is_found. Returns-bind (
              Returns-or_none _ _ λ u is_user. Returns-bind (
                Returns-ensure _ _ λ has_hash. Returns-bind (
                  Returns-ask _ (
                    Returns-bind (
                      Returns-ensure _ _ λ matches. Returns-bind (
                        Returns-ensure _ _ λ is_verified. Returns-bind (
                          Returns-ensure _ _ λ is_not_deleted. Returns-pure (
                            h u (record {
                              is_identified = is_found ∙ is_user;
                              has_hash = has_hash;
                              matches = matches;
                              is_verified = is_verified;
                              is_not_deleted = is_not_deleted;
                            })))))))))))))

-- a session of the user that is not revoked
abbrev pub is_session : ℕ → User → AuthSession → Bool
is_session i user s = s.id == i && s.user_id == user.id && is_none s.revoked_at

-- the stored form of a token that is handed out, in a session
abbrev pub is_stored : Text → ℕ → User → RefreshToken → Bool
is_stored hash session user t =
    text_eq t.token_hash hash
    && t.session_id == session
    && t.user_id == user.id
    && is_none t.revoked_at

-- A session with a refresh token of this hash.
abbrev pub Opened : Text → User → Db → Type 0
Opened hash user db =
    (session : ℕ) × (any (is_session session user) db.auth_sessions ≡ true)
    × (any (is_stored hash session user) db.refresh_tokens ≡ true)

append_new :
    {A : Type 0} → (p : A → Bool) (xs : List A) (x : A) → p x ≡ true → any p (xs ++ x ∷ []) ≡ true
append_new p xs x h = ground (arith, any-append_one p xs x, h)

open_session-Returns :
    (meta : Option AuditMeta) (user : User) (expires now : ℕ) (raw : Text) (w : World)
    → Returns
        (open_session (new_session meta user expires now) (w.env.sha256_hex raw))
        w
        (λ _ w'. Opened (w.env.sha256_hex raw) user w'.tx)
unfolding open_session Sessions.create Refresh.create new_session new_refresh_token
open_session-Returns meta user expires now raw w = Returns-bind (
    Returns-write _ _ _ λ s is_new. Returns-bind (
      Returns-write _ _ _ λ t unique. Returns-pure (
        w.env.uuid w.step,
        append_new _ w.tx.auth_sessions _ (ground arith),
        append_new _ w.tx.refresh_tokens _
            (let same = text_eq_refl (w.env.sha256_hex raw) in ground (arith, is_new)),
      )))

still_open :
    (meta : Option AuditMeta) (a : ActionName) (actor target : Option AuditUser) (w : World)
    (hash : Text) (user : User)
    → Opened hash user w.base
    → Opened hash user (log base_ctx meta a actor target w).1.base
still_open meta a actor target w hash user opened =
    let same = (log-SameTables base_ctx meta a actor target w).0 in
    rw (same.auth_sessions, same.refresh_tokens) opened

log_in-Returns :
    (meta : Option AuditMeta) (identifier password : Text) (w : World)
    → Returns (log_in meta identifier password) w (λ r w'.
      Checked w identifier password r.user
      × Opened (w.env.sha256_hex r.refresh_token) r.user w'.base)
unfolding log_in generate_access_token generate_refresh_token hash_token
log_in-Returns meta identifier password w = Returns-bind (
    authenticate-Returns identifier password w λ user checked. Returns-bind (
      Returns-map_err _ _ (
        Returns-bind (
          Returns-ask _ (
            Returns-or_none _ _ λ raw _. Returns-bind (
              Returns-ask _ (
                Returns-bind (
                  Returns-ask _ (
                    Returns-bind (
                      Returns-ask _ (
                        Returns-bind (
                          Returns-map_err _ _ (
                            Returns-with_tx _ (
                              Returns-mono (open_session-Returns meta user _ _ raw _) λ s w1 opened.
                                Returns-bind (
                                  Returns-bind (
                                    Returns-ask _ (
                                      Returns-or_none _ _ λ access _. Returns-bind (
                                        Returns-log_err _ (
                                          Returns-bind (
                                            Returns-ask _ (
                                              Returns-pure (
                                                checked,
                                                still_open meta login _ _ _ _ user opened,
                                              ))))))))))))))))))))))

-- Where a login returns, its identifier names a user that is not soft-deleted and whose e-mail is
-- verified, the password matches the stored hash, and there is a session of that user with the
-- refresh token that is handed out; both are unrevoked.
pub log_in_checks :
    (meta : Option AuditMeta) (identifier password : Text) (w : World) (r : LoginResult)
    (w' : World)
    → log_in meta identifier password w ≡ (ok r, w')
    → Checked w identifier password r.user
      × Opened (w.env.sha256_hex r.refresh_token) r.user w'.base
log_in_checks meta identifier password w r w' =
    Returns-ok r w' (log_in-Returns meta identifier password w)
