-- ===== src/Service/Auth/Passwords/Effects.antt =====
-- What setting or resetting a password by a token has done when it returns.
use portal_backend.Prelude.{
  ℕ, suc, Bool, true, false, not, ◌&&◌, ◌≡◌, refl, ◌∙◌, Option, some, any, first, any-update_where,
  any-update_where_keeps, arith,
}
use portal_backend.Text.{Text, text_eq}
use portal_backend.Text.Laws.{text_eq_refl}
use portal_backend.Domain.{
  TokenType, email_verification, other_type, password_set, password_reset, token_type_eq,
}
use portal_backend.Model.{Db, User, UserToken}
use portal_backend.World.{World, ok}
use portal_backend.World.Returns.{
  Returns, Returns-ok, Returns-bind, Returns-map_err, Returns-query, Returns-write, Returns-ensure,
  Returns-ask, Returns-fail, Returns-with_tx, Returns-or_none, Returns-mono, Returns-always,
  Returns-some,
}
use portal_backend.Repo.Updates.{found-some}
use portal_backend.Repo.Users
use portal_backend.Repo.Users.{is_live}
use portal_backend.Repo.Tokens
use portal_backend.Repo.Tokens.{is_unused, is_valid}
use portal_backend.Service.Audit.{AuditMeta}
use portal_backend.Service.Tables.{log-SameTables}
use portal_backend.Service.Token.{hash_token}
use portal_backend.Service.UserService.{hash_password, text_or_empty}
use portal_backend.Service.Auth.Passwords.{
  SetPasswordInput, store_password, password_statements, apply_password_by_token,
}

-- a live row of the user with another hash
abbrev pub stale : Text → ℕ → User → Bool
stale hash i u = is_live i u && not (text_eq (text_or_empty u.password_hash) hash)

store_password-Returns :
    (type : TokenType) (i : ℕ) (hash : Text) (w : World)
    → Returns
        (store_password type i hash)
        w
        (λ _ w'. (any (stale hash i) w'.tx.users ≡ false) × (w'.tx.user_tokens ≡ w.tx.user_tokens))
unfolding store_password Users.update_password Users.mark_email_verified
store_password-Returns password_set i hash w =
    let same = text_eq_refl hash in
    Returns-bind (
      Returns-write _ _ _ λ _ _. Returns-write _ _ _ λ _ _. (
        any-update_where_keeps (is_live i) (stale hash i) _ _ (λ u. refl)
            ∙ any-update_where (is_live i) (stale hash i) _ _ (λ u h. ground arith)
                (λ u h. ground arith),
        refl,
      ))
store_password-Returns password_reset i hash w =
    let same = text_eq_refl hash in
    Returns-write _ _ _ λ _ _. (
      any-update_where (is_live i) (stale hash i) _ _ (λ u h. ground arith) (λ u h. ground arith),
      refl,
    )
store_password-Returns email_verification i hash w = Returns-fail
store_password-Returns (other_type _) i hash w = Returns-fail

-- The user has this password hash, and the token is used.
abbrev pub Stored : Text → ℕ → ℕ → Db → Type 0
Stored hash user token db =
    (any (stale hash user) db.users ≡ false) × (any (is_unused token) db.user_tokens ≡ false)

password_statements-Returns :
    (meta : Option AuditMeta) (type : TokenType) (user : User) (t : UserToken) (hash : Text)
    (w : World)
    → Returns (password_statements meta type user t hash) w (λ _ w'. Stored hash user.id t.id w'.tx)
unfolding password_statements Tokens.mark_used
password_statements-Returns meta type user t hash w = Returns-bind (
    Returns-mono (store_password-Returns type user.id hash w) λ _ w1 stored. Returns-bind (
      Returns-write _ _ _ λ _ _. Returns-always _ λ _. (
        rw ((log-SameTables _ _ _ _ _ _).1.users) stored.0,
        rw ((log-SameTables _ _ _ _ _ _).1.user_tokens) (
            any-update_where (is_unused t.id) (is_unused t.id) _ _ (λ u h. ground arith)
              (λ u h. h)),
      )))

-- The token that is given: unused, unrevoked, not expired, and of the operation's type.
abbrev pub is_given : World → Text → TokenType → UserToken → Bool
is_given w raw type t =
    text_eq t.token_hash (w.env.sha256_hex raw)
    && token_type_eq t.token_type type
    && is_valid (w.env.clock (suc w.step)) t

-- What a call with this input that returned has checked and done.
abbrev pub PasswordSet : World → SetPasswordInput → TokenType → World → Type 0
PasswordSet w input type w' =
    (text_eq input.password input.confirm_password ≡ true)
    × (t : UserToken) × (first (is_given w input.token type) w.base.user_tokens ≡ some t)
    × (user : User) × (Users.loaded w.base (first (is_live t.user_id) w.base.users) ≡ some user)
    × (hash : Text) × (w.env.bcrypt_generate (suc (suc (suc w.step))) input.password ≡ some hash)
    × Stored hash user.id t.id w'.base

apply-Returns :
    (meta : Option AuditMeta) (input : SetPasswordInput) (type : TokenType) (w : World)
    → Returns
        (apply_password_by_token meta (some input) type)
        w
        (λ _ w'. PasswordSet w input type w')
unfolding apply_password_by_token Tokens.find_valid_token Users.find_by_id hash_password hash_token
apply-Returns meta input type w = Returns-bind (
    Returns-some _ _ (
      Returns-bind (
        Returns-ensure _ _ λ _. Returns-bind (
          Returns-ensure _ _ λ confirmed. Returns-bind (
            Returns-ask _ (
              Returns-bind (
                Returns-map_err _ _ (
                  Returns-query _ _ λ t is_token. Returns-bind (
                    Returns-map_err _ _ (
                      Returns-query _ _ λ user is_user. Returns-bind (
                        Returns-ensure _ _ λ _. Returns-bind (
                          Returns-ensure _ _ λ _. Returns-bind (
                            Returns-map_err _ _ (
                              Returns-bind (
                                Returns-ask _ (
                                  Returns-or_none _ _ λ hash is_hash. Returns-map_err _ _ (
                                    Returns-with_tx _ (
                                      Returns-mono
                                        (password_statements-Returns meta type user t hash _)
                                        λ _ w1 stored. (
                                          confirmed,
                                          t,
                                          found-some _ t is_token,
                                          user,
                                          found-some _ user is_user,
                                          hash,
                                          is_hash,
                                          stored,
                                        )))))))))))))))))))

-- Where a password is set or reset, both spellings of the password agree, the token is one that is
-- stored, unused, unrevoked, not expired and of the operation's type, every live row of its user
-- has the new hash, and the token is used.
pub apply_password_stores :
    (meta : Option AuditMeta) (input : SetPasswordInput) (type : TokenType) (w w' : World)
    → apply_password_by_token meta (some input) type w ≡ (ok tt, w')
    → PasswordSet w input type w'
apply_password_stores meta input type w w' = Returns-ok tt w' (apply-Returns meta input type w)
