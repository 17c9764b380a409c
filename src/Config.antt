-- ===== src/Config.antt =====
-- config: how the settings are read from the environment (env.go), and the settings of the server
-- (app.go) and of the rate limiter (ratelimit.go). The environment is the one after loadEnv.
use portal_backend.Prelude.{
  ℕ, suc, zero, ◌*◌, ℤ, pos, negsuc, Bool, true, false, not, ◌≡◌, Option, none, some, if◌then◌else◌,
}
use portal_backend.Text.{Text, codes, is_empty, trim_space}
pub mod Services
pub mod Bounds

-- a loaded value, or an error with the code's own words
pub data Result (A : Type 0) : Type 0 where
  loaded : A → Result A
  invalid : Text → Result A

infixl 5 ◌>>=◌ ◌>>◌
unfoldable pub ◌>>=◌ : {A B : Type 0} → Result A → (A → Result B) → Result B
loaded a >>= f = f a
invalid e >>= f = invalid e

abbrev pub ◌>>◌ : {B : Type 0} → Result (Unit {0}) → Result B → Result B
r >> k = r >>= λ _. k

-- The packages os, strconv and time. A duration is a number of nanoseconds; a float is kept as the
-- text that it is read from.
pub record Os : Type 0 where
  pub get_env : Text → Text
  pub parse_bool : Text → Option Bool
  pub atoi : Text → Option ℤ
  pub parse_duration : Text → Option ℤ
  pub is_float : Text → Bool

abbrev pub or_invalid : {A : Type 0} → Text → Option A → Result A
or_invalid key none = invalid key
or_invalid key (some a) = loaded a

abbrev pub float_of : Bool → Text → Option Text
float_of true value = some value
float_of false value = none

module _ (os : Os) where
  unfoldable pub get_env_default : Text → Text → Text
  get_env_default key fallback = if is_empty (os.get_env key) then fallback else os.get_env key

  -- the value of a key, or the fallback where it is empty; the error names the key
  abbrev pub parsed : {A : Type 0} → (Text → Option A) → Text → A → Result A
  parsed parse key fallback =
      if is_empty (os.get_env key) then loaded fallback else or_invalid key (parse (os.get_env key))

  unfoldable pub get_env_bool : Text → Bool → Result Bool
  get_env_bool key fallback = parsed os.parse_bool key fallback

  unfoldable pub get_env_int : Text → ℤ → Result ℤ
  get_env_int key fallback = parsed os.atoi key fallback

  unfoldable pub get_env_duration : Text → ℤ → Result ℤ
  get_env_duration key fallback = parsed os.parse_duration key fallback

  unfoldable pub get_env_float : Text → Text → Result Text
  get_env_float key fallback = parsed (λ value. float_of (os.is_float value) value) key fallback

abbrev pub second : ℕ
second = 1000000000

pub record Config : Type 0 where
  pub grpc_port : Text
  pub http_port : Text
  pub db_url : Text
  pub jwt_secret : Text
  pub jwt_access_ttl : ℤ
  pub refresh_ttl : ℤ
  pub port : Text
  pub env : Text
  pub admin_email : Text
  pub admin_password : Text
  pub api_base_url : Text
  pub frontend_url : Text
  pub log_level : Text
  pub log_format : Text

abbrev pub or_text : Text → Text → Text
or_text s t = if is_empty s then t else s

-- Load
unfoldable pub load : Os → Result Config
load os = do
  access_ttl ← get_env_int os (codes "JWT_ACCESS_TTL") (pos 3600)
  refresh_ttl ← get_env_int os (codes "JWT_REFRESH_TTL") (pos 604800)
  let http_port =
      or_text (trim_space (get_env_default os (codes "HTTP_PORT") (codes "")))
        (get_env_default os (codes "PORT") (codes "8000"))
  loaded (record {
    grpc_port = get_env_default os (codes "GRPC_PORT") (codes "50051");
    http_port = http_port;
    db_url = get_env_default os (codes "DB_URL") (codes "");
    jwt_secret =
        or_text (get_env_default os (codes "JWT_SECRET") (codes ""))
          (get_env_default os (codes "JWT_SECRET_KEY") (codes ""));
    jwt_access_ttl = access_ttl;
    refresh_ttl = refresh_ttl;
    port = get_env_default os (codes "PORT") http_port;
    env = get_env_default os (codes "ENV") (codes "development");
    admin_email = get_env_default os (codes "ADMIN_EMAIL") (codes "");
    admin_password = get_env_default os (codes "ADMIN_PASSWORD") (codes "");
    api_base_url = get_env_default os (codes "API_BASE_URL") (codes "");
    frontend_url = get_env_default os (codes "FRONTEND_BASE_URL") (codes "");
    log_level = get_env_default os (codes "LOG_LEVEL") (codes "info");
    log_format = get_env_default os (codes "LOG_FORMAT") (codes "text");
  })

pub record RateLimitConfig : Type 0 where
  pub enabled : Bool
  pub prefix : Text
  pub default_limit : ℤ
  pub default_burst : ℤ
  pub default_period : ℤ
  pub fail_open : Bool

abbrev pub is_positive : ℤ → Bool
is_positive (pos zero) = false
is_positive (pos (suc n)) = true
is_positive (negsuc n) = false

abbrev pub require : Bool → Text → Result (Unit {0})
require b e = if b then loaded tt else invalid e

-- what a limiter that is on needs
abbrev pub required : RateLimitConfig → Result (Unit {0})
required c = do
  require (not (is_empty c.prefix))
      (codes "RATE_LIMIT_PREFIX is required when rate limit is enabled")
  require (is_positive c.default_limit) (codes "RATE_LIMIT_DEFAULT_LIMIT must be > 0")
  require (is_positive c.default_burst) (codes "RATE_LIMIT_DEFAULT_BURST must be > 0")
  require (is_positive c.default_period) (codes "RATE_LIMIT_DEFAULT_PERIOD must be > 0")

-- Validate
unfoldable pub validate : RateLimitConfig → Result (Unit {0})
validate c = if not c.enabled then loaded tt else required c

unfoldable pub load_rate_limit_config : Os → Result RateLimitConfig
load_rate_limit_config os = do
  enabled ← get_env_bool os (codes "RATE_LIMIT_ENABLED") false
  limit ← get_env_int os (codes "RATE_LIMIT_DEFAULT_LIMIT") (pos 300)
  burst ← get_env_int os (codes "RATE_LIMIT_DEFAULT_BURST") limit
  period ← get_env_duration os (codes "RATE_LIMIT_DEFAULT_PERIOD") (pos (60 * second))
  fail_open ← get_env_bool os (codes "RATE_LIMIT_FAIL_OPEN") true
  let cfg : RateLimitConfig = record {
    enabled = enabled;
    prefix = trim_space (get_env_default os (codes "RATE_LIMIT_PREFIX") (codes "portal:rl"));
    default_limit = limit;
    default_burst = burst;
    default_period = period;
    fail_open = fail_open;
  }
  validate cfg
  loaded cfg
