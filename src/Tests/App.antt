-- ===== src/Tests/App.antt =====
-- Starts and ends of the server of internal/app.
use portal_backend.Prelude.{
  true, false, ◌≡◌, refl, pos, List, [], ◌∷◌, ◌||◌, none, some, if◌then◌else◌,
}
use portal_backend.Text
use portal_backend.Text.{codes, text_eq}
use portal_backend.Domain.{RoleCode, PermissionCode, user_list}
use portal_backend.World
use portal_backend.World.{World, ok}
use portal_backend.Config.{Os, Config, Result, loaded, invalid, RateLimitConfig}
use portal_backend.Config.Services.{OutboxWorkerConfig}
use portal_backend.Config
use portal_backend.Config.Services
use portal_backend.Repo.Roles
use portal_backend.Seed
use portal_backend.App.Settings
use portal_backend.App.Health
use portal_backend.App.Bootstrap
use portal_backend.App.Bootstrap.{App, RedisClient, Start, attempted}
use portal_backend.App.Bootstrap.Started.{Wired, started_is_Wired}
use portal_backend.App.Health.{Probes, Answer, reported, root_mux, readiness_report}
use portal_backend.App.Health.Ready.{readiness_lem}
use portal_backend.App.Lifecycle.{
  http_server, server_closed, Running, started, Step, server_ends, Reachable, at_start, after,
  Ready, end_of, returned, send,
}
use portal_backend.App.Lifecycle.Ends.{signal_may_skip_shutdown}
use portal_backend.Tests.{calm}

-- the HTTP server has been closed
abbrev without_http : Running
without_http = send http_server (some server_closed) started

abbrev closed : Reachable without_http
closed =
    after started without_http at_start
      (server_ends started http_server (some server_closed) refl refl)

abbrev signalled : Running
signalled = record started { signalled = true }

signal_may_skip_shutdown_example :
    (t : Running) × Step signalled t × (c : Ready t) × (end_of t c ≡ returned none)
signal_may_skip_shutdown_example = signal_may_skip_shutdown signalled refl refl refl

-- an environment in which the limiter and Redis are turned on
abbrev os : Os
os = record {
  get_env = λ key.
      if text_eq key (codes "RATE_LIMIT_ENABLED") || text_eq key (codes "REDIS_ENABLED")
      then codes "true"
      else [];
  parse_bool = λ t. some true;
  atoi = λ t. some (pos 1);
  parse_duration = λ t. some (pos 1);
  is_float = λ t. true;
}

abbrev table : List (RoleCode × List PermissionCode)
table = (0x47 ∷ [], user_list ∷ []) ∷ []

abbrev start_run : Start × World
start_run = Bootstrap.new_app table os calm

abbrev server : App
server = record {
  config = record {
    grpc_port = codes "50051";
    http_port = codes "8000";
    db_url = [];
    jwt_secret = [];
    jwt_access_ttl = pos 3600;
    refresh_ttl = pos 604800;
    port = codes "8000";
    env = codes "development";
    admin_email = [];
    admin_password = [];
    api_base_url = [];
    frontend_url = [];
    log_level = codes "info";
    log_format = codes "text";
  };
  rate_limiter = some (client, codes "portal:rl");
  rate_limit_config = record {
    enabled = true;
    prefix = codes "portal:rl";
    default_limit = pos 300;
    default_burst = pos 300;
    default_period = pos 60000000000;
    fail_open = true;
  };
  redis_client = some client;
  kafka_brokers = codes "kafka:9092" ∷ [];
  notification_topic = codes "notification.requested";
  worker_config = record {
    interval = pos 2000000000;
    batch_size = pos 50;
    max_retry = pos 10;
    retry_initial_backoff = pos 30000000000;
    retry_max_backoff = pos 1800000000000;
    retry_jitter_ratio = codes "0.2";
  };
}
  where
    client : RedisClient
    client = record {
      addr = [];
      password = [];
      db = pos 0;
      dial_timeout = pos 5000000000;
      read_timeout = pos 3000000000;
      write_timeout = pos 3000000000;
      pool_size = pos 10;
      min_idle_conns = pos 2;
      max_retries = pos 3;
    }

started_is_Wired_example : Wired table server start_run.1.base
unfolding Bootstrap.new_app Bootstrap.launch Bootstrap.new_client Bootstrap.new_redis_limiter
    Bootstrap.open_limiter Bootstrap.open_redis Bootstrap.ping_redis Bootstrap.seed_development
    Settings.settings Config.◌>>=◌ Config.load Config.get_env_default Config.get_env_int
    Config.get_env_bool Config.get_env_duration Config.get_env_float Config.load_rate_limit_config
    Config.validate Services.load_redis_config Services.load_kafka_config Services.split_and_trim
    Services.keep_trimmed Services.split_comma Services.get_env Services.load_outbox_worker_config
    Roles.assign_permission Roles.create Roles.find_by_code Seed.seed_admin
    Seed.seed_each_permission Seed.seed_grant Seed.seed_grants Seed.seed_permission
    Seed.seed_permissions Seed.seed_role Seed.seed_role_permissions Seed.seed_roles Text.trim_space
    Text.is_space Text.to_lower Text.trim_left Text.trim_right World.ask World.nullable
    World.or_none World.query World.write World.◌>>=◌
started_is_Wired_example = started_is_Wired table os calm server start_run.1 refl

abbrev probes : Probes
probes = record { db = true; ping_db = true; dial = λ b. true; ping_redis = λ c. false }

readiness_lem_example :
    root_mux (λ _. readiness_report server probes) (codes "/readiness")
    ≡ reported 503 (readiness_report server probes)
unfolding Health.kafka_ping Health.redis_ping
readiness_lem_example = readiness_lem server probes
