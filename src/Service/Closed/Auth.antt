-- ===== src/Service/Closed/Auth.antt =====
-- The authentication service leaves a closed session closed, a login included.
use portal_backend.Prelude.{ℕ, List, [], ◌∷◌, Option, none, some}
use portal_backend.World.{base_ctx}
use portal_backend.Text.{Text}
use portal_backend.Domain.{TokenType, email_verification, password_set, password_reset, other_type}
use portal_backend.World.Keeps.{if-Both, Keeps-bind, Keeps, keeps_rules}
use portal_backend.Repo.Closed.Accounts.{users_find_by_email-Closed, users_find_by_username-Closed}
use portal_backend.Model.{User, UserToken, AuthSession, RefreshToken}
use portal_backend.Repo.Closed.{Closed}
use portal_backend.Service.Audit.{AuditMeta, AuditUser}
use portal_backend.Service.Auth.Passwords.{
  SetPasswordInput, forgot_tx, forgot_for, forgot_password, store_password, password_statements,
  apply_password_by_token,
}
use portal_backend.Service.Auth.Register.{RegisterInput, register_tx, register}
use portal_backend.Service.Auth.{link, mark_all_revoked}
use portal_backend.Service.Auth.Login.{find_by_identifier, authenticate, open_session, log_in}
use portal_backend.Service.Auth.Logout.{logout_tx, logout, logout_all_tx, logout_all}
use portal_backend.Service.Auth.RefreshTokens.{
  revoke_user_tx, handle_refresh_token_reuse, rotate_tx, refresh_with, refresh,
}
use portal_backend.Service.Auth.Verification.{
  verify_statements, verify_email, resend_tx, resend_verification,
}
use portal_backend.Service.Closed.{closed_statements, closed_calls}
use portal_backend.Repo.Users

module _ (s : ℕ) where
  pub link-Closed : (path raw : Text) → Keeps (Closed s) (link path raw)
  unfolding link
  link-Closed path raw = search (closed_calls, closed_statements) depth 40

  pub mark_all_revoked-Closed : (rows : List AuthSession) → Keeps (Closed s) (mark_all_revoked rows)
  unfolding mark_all_revoked
  mark_all_revoked-Closed [] = search keeps_rules depth 4
  mark_all_revoked-Closed (r ∷ rows) =
      Keeps-bind _ _ (search (closed_calls, closed_statements) depth 8)
        (λ _. mark_all_revoked-Closed rows)

  pub find_by_identifier-Closed : (name : Text) → Keeps (Closed s) (find_by_identifier name)
  unfolding find_by_identifier
  find_by_identifier-Closed name = record {
    at = λ w h.
        if-Both (Closed s) (w.env.parse_address name) (Users.find_by_email base_ctx name w)
          (Users.find_by_username base_ctx name w)
          ((users_find_by_email-Closed s base_ctx name).at w h)
          ((users_find_by_username-Closed s base_ctx name).at w h);
  }

  pub authenticate-Closed : (name password : Text) → Keeps (Closed s) (authenticate name password)
  unfolding authenticate
  authenticate-Closed name password =
      search (closed_calls, closed_statements, find_by_identifier-Closed) depth 40

  pub open_session-Closed :
      (row : AuthSession) (hash : Text) → Keeps (Closed s) (open_session row hash)
  unfolding open_session
  open_session-Closed row hash = search (closed_calls, closed_statements) depth 40

  pub log_in-Closed :
      (meta : Option AuditMeta) (name password : Text)
      → Keeps (Closed s) (log_in meta name password)
  unfolding log_in
  log_in-Closed meta name password =
      search (closed_calls, closed_statements, authenticate-Closed, open_session-Closed) depth 40

  pub logout_tx-Closed : (i : ℕ) → Keeps (Closed s) (logout_tx i)
  unfolding logout_tx
  logout_tx-Closed i = search (closed_calls, closed_statements) depth 40

  pub logout-Closed :
      (meta : Option AuditMeta) (actor : Option AuditUser) (i : ℕ)
      → Keeps (Closed s) (logout meta actor i)
  unfolding logout
  logout-Closed meta actor i = search (closed_calls, closed_statements, logout_tx-Closed) depth 40

  pub logout_all_tx-Closed : (i : ℕ) → Keeps (Closed s) (logout_all_tx i)
  unfolding logout_all_tx
  logout_all_tx-Closed i = search (closed_calls, closed_statements) depth 40

  pub logout_all-Closed :
      (meta : Option AuditMeta) (actor : Option AuditUser)
      → Keeps (Closed s) (logout_all meta actor)
  unfolding logout_all
  logout_all-Closed meta actor =
      search (closed_calls, closed_statements, mark_all_revoked-Closed, logout_all_tx-Closed) depth
        40

  pub forgot_tx-Closed :
      (meta : Option AuditMeta) (user : User) (token : Text × Text)
      → Keeps (Closed s) (forgot_tx meta user token)
  unfolding forgot_tx
  forgot_tx-Closed meta user token = search (closed_calls, closed_statements, link-Closed) depth 40

  pub forgot_for-Closed :
      (meta : Option AuditMeta) (found : Option User) → Keeps (Closed s) (forgot_for meta found)
  unfolding forgot_for
  forgot_for-Closed meta none = search (closed_calls, closed_statements, forgot_tx-Closed) depth 12
  forgot_for-Closed meta (some x) =
      search (closed_calls, closed_statements, forgot_tx-Closed) depth 16

  pub forgot_password-Closed :
      (meta : Option AuditMeta) (address : Text) → Keeps (Closed s) (forgot_password meta address)
  unfolding forgot_password
  forgot_password-Closed meta address =
      search (closed_calls, closed_statements, forgot_for-Closed) depth 40

  pub store_password-Closed :
      (type : TokenType) (i : ℕ) (hash : Text) → Keeps (Closed s) (store_password type i hash)
  unfolding store_password
  store_password-Closed email_verification i hash =
      search (closed_calls, closed_statements) depth 12
  store_password-Closed password_set i hash = search (closed_calls, closed_statements) depth 12
  store_password-Closed password_reset i hash = search (closed_calls, closed_statements) depth 12
  store_password-Closed (other_type t) i hash = search (closed_calls, closed_statements) depth 12

  pub password_statements-Closed :
      (meta : Option AuditMeta) (type : TokenType) (user : User) (found : UserToken) (hash : Text)
      → Keeps (Closed s) (password_statements meta type user found hash)
  unfolding password_statements
  password_statements-Closed meta type user found hash =
      search (closed_calls, closed_statements, store_password-Closed) depth 40

  pub apply_password_by_token-Closed :
      (meta : Option AuditMeta) (input : Option SetPasswordInput) (type : TokenType)
      → Keeps (Closed s) (apply_password_by_token meta input type)
  unfolding apply_password_by_token
  apply_password_by_token-Closed meta input type =
      search (closed_calls, closed_statements, password_statements-Closed) depth 40

  pub revoke_user_tx-Closed : (i : ℕ) → Keeps (Closed s) (revoke_user_tx i)
  unfolding revoke_user_tx
  revoke_user_tx-Closed i = search (closed_calls, closed_statements) depth 40

  pub handle_refresh_token_reuse-Closed :
      (meta : Option AuditMeta) (row : RefreshToken)
      → Keeps (Closed s) (handle_refresh_token_reuse meta row)
  unfolding handle_refresh_token_reuse
  handle_refresh_token_reuse-Closed meta row =
      search (closed_calls, closed_statements, mark_all_revoked-Closed, revoke_user_tx-Closed) depth
        40

  pub rotate_tx-Closed : (i : ℕ) (row : RefreshToken) → Keeps (Closed s) (rotate_tx i row)
  unfolding rotate_tx
  rotate_tx-Closed i row = search (closed_calls, closed_statements) depth 40

  pub refresh_with-Closed : (row : RefreshToken) → Keeps (Closed s) (refresh_with row)
  unfolding refresh_with
  refresh_with-Closed row = search (closed_calls, closed_statements, rotate_tx-Closed) depth 40

  pub refresh-Closed : (meta : Option AuditMeta) (raw : Text) → Keeps (Closed s) (refresh meta raw)
  unfolding refresh
  refresh-Closed meta raw =
      search
        (closed_calls, closed_statements, handle_refresh_token_reuse-Closed, refresh_with-Closed)
        depth 40

  pub register_tx-Closed :
      (meta : Option AuditMeta) (row : User) (token : Text × Text)
      → Keeps (Closed s) (register_tx meta row token)
  unfolding register_tx
  register_tx-Closed meta row token = search (closed_calls, closed_statements, link-Closed) depth 40

  pub register-Closed :
      (meta : Option AuditMeta) (input : RegisterInput) → Keeps (Closed s) (register meta input)
  unfolding register
  register-Closed meta input = search (closed_calls, closed_statements, register_tx-Closed) depth 40

  pub verify_statements-Closed :
      (meta : Option AuditMeta) (user : User) (found : UserToken)
      → Keeps (Closed s) (verify_statements meta user found)
  unfolding verify_statements
  verify_statements-Closed meta user found = search (closed_calls, closed_statements) depth 40

  pub verify_email-Closed :
      (meta : Option AuditMeta) (raw : Text) (type : TokenType)
      → Keeps (Closed s) (verify_email meta raw type)
  unfolding verify_email
  verify_email-Closed meta raw type =
      search (closed_calls, closed_statements, verify_statements-Closed) depth 40

  pub resend_tx-Closed :
      (meta : Option AuditMeta) (found : Option User) (type : TokenType) (token : Text × Text)
      → Keeps (Closed s) (resend_tx meta found type token)
  unfolding resend_tx
  resend_tx-Closed meta found type token =
      search (closed_calls, closed_statements, link-Closed) depth 40

  pub resend_verification-Closed :
      (meta : Option AuditMeta) (address : Text) (type : TokenType)
      → Keeps (Closed s) (resend_verification meta address type)
  unfolding resend_verification
  resend_verification-Closed meta address type =
      search (closed_calls, closed_statements, resend_tx-Closed) depth 40
