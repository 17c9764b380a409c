-- ===== src/Service.antt =====
-- internal/service: the services, over the repositories. What they share: normalised names
-- (user_identity.go) and how an error of a repository becomes one of a service.
use portal_backend.Prelude.{ℕ, Bool, ◌||◌, not, ◌≡◌, refl, ◌∙◌, ap, ltb}
use portal_backend.Text.{Text, is_empty, is_space, byte_len, trim_space, to_lower}
use portal_backend.Text.Laws.{trim_space-trim_space, trim_space-to_lower, to_lower-to_lower}
use portal_backend.Errors.{Error, app, not_found, err_invalid_input, err_internal_server}
use portal_backend.World.{World, M, ensure}
use portal_backend.Repo.{normalize}
pub mod Closed
pub mod Audit
pub mod Rules
pub mod Tables
pub mod Atomicity
pub mod Notification
pub mod Token
pub mod RoleService
pub mod UserService
pub mod AdminService
pub mod Auth

abbrev pub min_username_length : ℕ
min_username_length = 3

abbrev pub max_username_length : ℕ
max_username_length = 50

-- normalizeEmail, normalizeUsername and normalizeLoginIdentifier
unfoldable pub normalize_identity : World → Text → Text
normalize_identity w s = to_lower w.env.lower (trim_space s)

unfoldable pub validate_normalized_email : Text → M (Unit {0})
validate_normalized_email email = ensure (not (is_empty email)) (app err_invalid_input)

unfoldable pub username_fits : Text → Bool
username_fits s = not (ltb (byte_len s) min_username_length || ltb max_username_length (byte_len s))

unfoldable pub validate_normalized_username : Text → M (Unit {0})
unfolding username_fits
validate_normalized_username s = ensure (username_fits s) (app err_invalid_input)

-- `if errors.Is(err, repository.ErrNotFound) { return a }; return b`
abbrev pub not_found_or : Error → Error → Error → Error
not_found_or a b not_found = a
not_found_or a b _ = b

-- `if errors.Is(err, repository.ErrNotFound) { return a }; return err`
abbrev pub not_found_as : Error → Error → Error
not_found_as a not_found = a
not_found_as a e = e

-- Where lower case keeps lower-case letters and spaces, normalising a name twice is normalising it
-- once.
pub normalize_identity_idem :
    (w : World) (s : Text)
    → ((c : ℕ) → w.env.lower (w.env.lower c) ≡ w.env.lower c)
    → ((c : ℕ) → is_space (w.env.lower c) ≡ is_space c)
    → normalize_identity w (normalize_identity w s) ≡ normalize_identity w s
unfolding normalize_identity
normalize_identity_idem w s idem keeps =
    ap (to_lower w.env.lower) (
      trim_space-to_lower w.env.lower keeps (trim_space s)
      ∙ ap (to_lower w.env.lower) (trim_space-trim_space s))
    ∙ to_lower-to_lower w.env.lower idem (trim_space s)
