-- ===== src/Tests.antt =====
-- Concrete runs of the services: a small database, an environment in which nothing fails, and one
-- in which the effects of a given number fail.
pub mod Auth
pub mod Admin
pub mod Access
pub mod Users
pub mod Outbox
pub mod Grpc
pub mod Config
pub mod Seed
pub mod Cdc
pub mod Sessions
pub mod App
use portal_backend.Prelude.{ℕ, ◌+◌, Bool, true, false, List, [], ◌∷◌, Option, none, some, ◌==◌, any}
use portal_backend.Text.{Text, codes, text_eq}
use portal_backend.Domain.{active, password_reset, role_code_admin, role_code_user}
use portal_backend.Model.{Role, User, UserToken, AuthSession, RefreshToken, Permission, Db, no_role}
use portal_backend.World.{Env, World, Outcome, ok, err, panic}
use portal_backend.Service.Audit.{AuditUser}

-- an environment in which the effects of a test fail
abbrev pub env_with : (ℕ → Bool) → Env
env_with fault = record {
  fault = fault;
  clock = λ n. 1000 + n;
  uuid = λ n. 500 + n;
  uuid_text = λ n. n ∷ [];
  lower = λ c. c;
  parse_address = λ s. any (λ c. c == 0x40) s;
  bcrypt_generate = λ _ s. some (0x24 ∷ s);
  bcrypt_compare = λ h s. text_eq h (0x24 ∷ s);
  sha256_hex = λ s. 0x23 ∷ s;
  random_hex = λ n. some (n ∷ []);
  sign = λ c i e. some (0x6A ∷ []);
  verify = λ n s. none;
  query_escape = λ s. s;
  marshal = λ e. some (0x7B ∷ []);
  get_env = λ k. [];
  parse_duration = λ s. none;
  atoi = λ s. none;
  sql_key = λ s. s;
  sql_le = λ s t. true;
  marshal_fields = λ f. some (0x7B ∷ []);
  ilike = λ s t. true;
  notification_topic = 0x6E ∷ [];
  frontend_url = 0x68 ∷ [];
  refresh_ttl = 5000;
  access_ttl = 100;
}

abbrev pub admin_role : Role
admin_role = record { id = 1; code = role_code_admin; name = []; is_system = true }

abbrev pub user_role : Role
user_role = record { id = 2; code = role_code_user; name = []; is_system = true }

abbrev pub guest_role : Role
guest_role = record { id = 3; code = 0x47 ∷ []; name = []; is_system = false }

abbrev pub alice : User
alice = record {
  id = 10;
  email = 0x40 ∷ [];
  username = 0x61 ∷ [];
  first_name = [];
  last_name = [];
  dob = none;
  password_hash = some (0x24 ∷ 0x70 ∷ []);
  role_id = 3;
  role = no_role;
  status = active;
  email_verified_at = some 5;
  last_login_at = none;
  deleted_at = none;
  deleted_by = none;
}

abbrev pub alices_token : RefreshToken
alices_token = record {
  id = 30;
  session_id = 20;
  user_id = 10;
  token_hash = 0x23 ∷ 0x72 ∷ [];
  expires_at = 9000;
  revoked_at = none;
  replaced_by_token_id = none;
}

abbrev pub db : Db
db = record {
  users = alice ∷ [];
  roles = admin_role ∷ user_role ∷ guest_role ∷ [];
  permissions = record { id = 7; code = 0x55 ∷ []; name = [] } ∷ [];
  role_permissions = record { role_id = 3; permission_id = 7 } ∷ [];
  user_tokens =
      record {
        id = 40;
        user_id = 10;
        token_type = password_reset;
        token_hash = 0x23 ∷ 0x74 ∷ [];
        expires_at = 9000;
        used_at = none;
        revoked_at = none;
      }
      ∷ [];
  auth_sessions =
      record {
        id = 20;
        user_id = 10;
        expires_at = 3000;
        user_agent = [];
        ip_address = [];
        last_used_at = none;
        revoked_at = none;
      }
      ∷ [];
  refresh_tokens = alices_token ∷ [];
  outbox_events = [];
  action_logs = [];
}

abbrev pub world_with : (ℕ → Bool) → World
world_with fault = record { env = env_with fault; step = 0; base = db; tx = db; revoked = [] }

abbrev pub calm : World
calm = world_with (λ n. false)

abbrev pub root : AuditUser
root = record { id = 99; username = []; email = []; role_code = role_code_admin }

abbrev pub user_10 : AuditUser
user_10 = record { id = 10; username = 0x61 ∷ []; email = 0x40 ∷ []; role_code = 0x47 ∷ [] }

-- the result of a run that returned
abbrev pub returned : {A : Type 0} → A → Outcome A → A
returned d (ok a) = a
returned d (err e) = d
returned d panic = d
