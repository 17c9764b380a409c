-- ===== src/Repo/Users.antt =====
-- internal/repository/impl/user_repository.go. Every statement but the unscoped ones sees only the
-- rows that are not soft-deleted (gorm.DeletedAt of the model).
use portal_backend.Prelude.{
  ℕ, ◌-◌, ◌*◌, Bool, true, false, not, ◌&&◌, ◌||◌, List, ◌∷◌, ◌++◌, [], Option, none, some, length,
  any, first, select, update_where, take, drop, is_none, ◌==◌, if◌then◌else◌,
}
use portal_backend.Text.{Text, text_eq, is_empty, trim_space}
use portal_backend.Errors.{driver}
use portal_backend.Domain.{UserStatus, active, deleted, pending, status_none, other_status}
use portal_backend.Model.{Role, User, Db, no_role}
use portal_backend.World.{World, ok, err, M, Ctx, moment, fresh, pure, ◌>>=◌, query, write}
use portal_backend.Repo.{found, affecting, normalize}

abbrev pub live : User → Bool
live u = is_none u.deleted_at

abbrev pub has_id : ℕ → User → Bool
has_id i u = u.id == i

-- WHERE id = ? of a query that is not Unscoped
abbrev pub is_live : ℕ → User → Bool
is_live i u = u.id == i && live u

abbrev pub role_or_none : Option Role → Role
role_or_none none = no_role
role_or_none (some r) = r

-- Preload("Role")
unfoldable pub preload : Db → User → User
preload db u = record u { role = role_or_none (first (λ r. r.id == u.role_id) db.roles) }

abbrev pub loaded : Db → Option User → Option User
loaded db none = none
loaded db (some u) = some (preload db u)

-- The row that Create inserts, with the id of BeforeCreate.
unfoldable pub new_row : User → World → User
new_row u w = record u {
  id = fresh w;
  email = normalize w u.email;
  username = normalize w u.username;
}

-- the unique indexes of the model
abbrev pub clashes : User → User → Bool
clashes u v = text_eq v.email u.email || text_eq v.username u.username

unfoldable pub create : Ctx → User → M User
create c u =
    write c (λ w db. if any (clashes (new_row u w)) db.users then err driver else ok (new_row u w))
      (λ w db. record db { users = db.users ++ new_row u w ∷ [] })

unfoldable pub find_by_id : Ctx → ℕ → M User
find_by_id c i = query c (λ w db. found (loaded db (first (is_live i) db.users)))

unfoldable pub exists_by_role_id_unscoped : Ctx → ℕ → M Bool
exists_by_role_id_unscoped c r = query c (λ w db. ok (any (λ u. u.role_id == r) db.users))

unfoldable pub find_by_id_unscoped : Ctx → ℕ → M User
find_by_id_unscoped c i = query c (λ w db. found (loaded db (first (has_id i) db.users)))

unfoldable pub find_by_username : Ctx → Text → M (Option User)
find_by_username c s = query c (λ w db. ok (
    loaded db (first (λ u. text_eq (w.env.sql_key u.username) (normalize w s) && live u) db.users)))

unfoldable pub find_by_email : Ctx → Text → M (Option User)
find_by_email c s = query c (λ w db.
    ok
      (loaded db (first (λ u. text_eq (w.env.sql_key u.email) (normalize w s) && live u) db.users)))

-- the unique index on the username, for a row that is updated
abbrev pub takes_name : ℕ → Text → User → Bool
takes_name i name v = not (v.id == i) && text_eq v.username name

unfoldable pub update : Ctx → User → M (Unit {0})
update c u =
    write c
      (λ w db.
        if any (is_live u.id) db.users && any (takes_name u.id (normalize w u.username)) db.users
        then err driver
        else ok tt)
      (λ w db. record db {
        users =
            update_where (is_live u.id)
              (λ v. record v {
                first_name = u.first_name;
                last_name = u.last_name;
                dob = u.dob;
                username = normalize w u.username;
              })
              db.users;
      })

unfoldable pub update_password : Ctx → ℕ → Text → M (Unit {0})
update_password c i hash =
    write c (λ w db. affecting (is_live i) db.users)
      (λ w db. record db {
        users = update_where (is_live i) (λ v. record v { password_hash = some hash }) db.users;
      })

unfoldable pub update_role : Ctx → ℕ → ℕ → M (Unit {0})
update_role c i r =
    write c (λ w db. affecting (is_live i) db.users)
      (λ w db. record db {
        users = update_where (is_live i) (λ v. record v { role_id = r }) db.users;
      })

unfoldable pub update_role_by_role_id_unscoped : Ctx → ℕ → ℕ → M (Unit {0})
update_role_by_role_id_unscoped c old new =
    write c (λ w db. affecting (λ v. v.role_id == old) db.users)
      (λ w db. record db {
        users = update_where (λ v. v.role_id == old) (λ v. record v { role_id = new }) db.users;
      })

unfoldable pub mark_email_verified : Ctx → ℕ → M (Unit {0})
mark_email_verified c i =
    write c (λ w db. affecting (is_live i) db.users)
      (λ w db. record db {
        users =
            update_where (is_live i)
              (λ v. record v { email_verified_at = some (moment w); status = active }) db.users;
      })

unfoldable pub delete : Ctx → ℕ → ℕ → M (Unit {0})
delete c i by =
    write c (λ w db. affecting (is_live i) db.users)
      (λ w db. record db {
        users =
            update_where (is_live i)
              (λ v. record v {
                deleted_at = some (moment w);
                deleted_by = some by;
                status = deleted;
              })
              db.users;
      })

unfoldable pub restore : Ctx → ℕ → M (Unit {0})
restore c i =
    write c (λ w db. affecting (has_id i) db.users)
      (λ w db. record db {
        users =
            update_where (has_id i)
              (λ v. record v { deleted_at = none; deleted_by = none; status = active }) db.users;
      })

pub record UserListFilter : Type 0 where
  pub page : ℕ
  pub page_size : ℕ
  pub username : Text
  pub email : Text
  pub full_name : Text
  pub dob : Option ℕ
  pub role_id : Option ℕ
  pub status : UserStatus
  pub include_deleted : Bool

abbrev pub status_eq : UserStatus → UserStatus → Bool
status_eq active active = true
status_eq pending pending = true
status_eq deleted deleted = true
status_eq status_none status_none = true
status_eq (other_status s) (other_status t) = text_eq s t
status_eq _ _ = false

abbrev pub wants_id : Option ℕ → ℕ → Bool
wants_id none i = true
wants_id (some j) i = i == j

abbrev pub has_dob : Option ℕ → Option ℕ → Bool
has_dob none d = true
has_dob (some e) none = false
has_dob (some e) (some d) = d == e

-- the query that ListUsers builds
unfoldable pub matches : World → UserListFilter → User → Bool
matches w f u =
    (f.include_deleted || live u)
    && (is_empty (trim_space f.username) || w.env.ilike u.username (trim_space f.username))
    && (is_empty (trim_space f.email) || w.env.ilike u.email (trim_space f.email))
    && (is_empty f.full_name || w.env.ilike (u.first_name ++ 0x20 ∷ u.last_name) f.full_name)
    && has_dob f.dob u.dob
    && wants_id f.role_id u.role_id
    && (status_eq f.status status_none || status_eq u.status f.status)

abbrev pub preload_all : Db → List User → List User
preload_all db [] = []
preload_all db (u ∷ us) = preload db u ∷ preload_all db us

-- Count, then the page: two statements.
unfoldable pub list_users : Ctx → UserListFilter → M (List User × ℕ)
list_users c f = do
  total ← query c (λ w db. ok (length (select (matches w f) db.users)))
  users ← query c (λ w db. ok (
      preload_all db
        (take f.page_size (drop ((f.page - 1) * f.page_size) (select (matches w f) db.users)))))
  pure (users, total)
