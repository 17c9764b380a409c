-- ===== src/App/Bootstrap.antt =====
-- New of internal/app/bootstrap.go, with the client of internal/infrastructure/redis/client.go and
-- the constructor of redis_limiter.go. Opening the database, the first ping of Redis and the
-- migration are effects that may fail; the loggers, the metrics and what is only passed on are left
-- out.
pub mod Started
use portal_backend.Prelude.{
  ℕ, ℤ, pos, negsuc, Bool, true, false, not, ◌&&◌, List, Option, none, some, if◌then◌else◌,
}
use portal_backend.Text.{Text, codes, text_eq}
use portal_backend.Domain.{RoleCode, PermissionCode}
use portal_backend.Errors.{plain}
use portal_backend.World.{World, Outcome, ok, M, base_ctx, pure, fail, query, ◌>>=◌, ◌>>◌}
use portal_backend.Config.{Os, Result, loaded, invalid, Config, RateLimitConfig}
use portal_backend.Config.Services.{OutboxWorkerConfig, RedisConfig}
use portal_backend.App.Settings.{Settings, settings}
use portal_backend.Seed.{seed_permissions, seed_roles, seed_role_permissions, seed_admin}

-- redis.Client with its options
pub record RedisClient : Type 0 where
  pub addr : Text
  pub password : Text
  pub db : ℤ
  pub dial_timeout : ℤ
  pub read_timeout : ℤ
  pub write_timeout : ℤ
  pub pool_size : ℤ
  pub min_idle_conns : ℤ
  pub max_retries : ℤ

abbrev pub client_of : RedisConfig → RedisClient
client_of cfg = record {
  addr = cfg.addr;
  password = cfg.password;
  db = cfg.db;
  dial_timeout = cfg.dial_timeout;
  read_timeout = cfg.read_timeout;
  write_timeout = cfg.write_timeout;
  pool_size = cfg.pool_size;
  min_idle_conns = cfg.min_idle_conns;
  max_retries = cfg.max_retries;
}

-- NewClient: nil where there is no configuration or Redis is off
unfoldable pub new_client : Option RedisConfig → Option RedisClient
new_client none = none
new_client (some cfg) = if not cfg.enabled then none else some (client_of cfg)

-- an effect of the environment that only succeeds or fails
abbrev pub reach : M (Unit {0})
reach = query base_ctx (λ w db. ok tt)

-- Ping of internal/infrastructure/redis: nothing is asked of a client that is nil
unfoldable pub ping_redis : Option RedisClient → M (Unit {0})
ping_redis none = pure tt
ping_redis (some client) = reach

-- NewRedisLimiter
unfoldable pub new_redis_limiter : Option RedisClient → M RedisClient
new_redis_limiter none = fail (plain "redis client is nil")
new_redis_limiter (some client) = pure client

-- The parts of App that depend on the settings. The limiter is its client and the prefix of its keys.
pub record App : Type 0 where
  pub config : Config
  pub rate_limiter : Option (RedisClient × Text)
  pub rate_limit_config : RateLimitConfig
  pub redis_client : Option RedisClient
  pub kafka_brokers : List Text
  pub notification_topic : Text
  pub worker_config : OutboxWorkerConfig

-- a client that has answered, where Redis is on
unfoldable pub open_redis : RedisConfig → M (Option RedisClient)
open_redis cfg =
    if cfg.enabled
    then (do ping_redis (new_client (some cfg)); pure (new_client (some cfg)))
    else pure none

unfoldable pub open_limiter : RateLimitConfig → Option RedisClient → M (Option (RedisClient × Text))
open_limiter cfg client =
    if cfg.enabled
    then (do limiter ← new_redis_limiter client; pure (some (limiter, cfg.prefix)))
    else pure none

abbrev pub is_development : Config → Bool
is_development cfg = text_eq cfg.env (codes "development")

-- the seeds, for a table of grants in the order in which it is read
unfoldable pub seed_development : List (RoleCode × List PermissionCode) → Config → M (Unit {0})
seed_development table cfg =
    if is_development cfg
    then (do
      seed_permissions
      seed_roles
      seed_role_permissions table
      seed_admin (record { admin_email = cfg.admin_email; admin_password = cfg.admin_password }))
    else pure tt

-- what New does with its settings
unfoldable pub launch : List (RoleCode × List PermissionCode) → Settings → M App
launch table s = do
  reach
  client ← open_redis s.redis
  limiter ← open_limiter s.rate_limit client
  reach
  seed_development table s.config
  pure (record {
    config = s.config;
    rate_limiter = limiter;
    rate_limit_config = s.rate_limit;
    redis_client = client;
    kafka_brokers = s.kafka.brokers;
    notification_topic = s.kafka.notification_requested_topic;
    worker_config = s.worker;
  })

-- a start that was refused for its settings, or that went as far as its outcome says
pub data Start : Type 0 where
  misconfigured : Text → Start
  attempted : Outcome App → Start

abbrev pub start_with :
    List (RoleCode × List PermissionCode) → Result Settings → World → Start × World
start_with table (invalid e) w = (misconfigured e, w)
start_with table (loaded s) w = let (r, w') = launch table s w in (attempted r, w')

-- New
unfoldable pub new_app : List (RoleCode × List PermissionCode) → Os → World → Start × World
new_app table os w = start_with table (settings os) w
