-- ===== src/Config/Services.antt =====
-- config: worker.go, redis.go, kafka.go and elasticsearch.go
use portal_backend.Prelude.{◌*◌, ℤ, pos, Bool, false, List, [], ◌∷◌, ◌==◌, if◌then◌else◌}
use portal_backend.Text.{Text, codes, is_empty, trim_space}
use portal_backend.Config.{
  Os, Result, loaded, invalid, ◌>>=◌, get_env_default, get_env_bool, get_env_int, get_env_duration,
  get_env_float, second, or_text,
}

pub record OutboxWorkerConfig : Type 0 where
  pub interval : ℤ
  pub batch_size : ℤ
  pub max_retry : ℤ
  pub retry_initial_backoff : ℤ
  pub retry_max_backoff : ℤ
  pub retry_jitter_ratio : Text

unfoldable pub load_outbox_worker_config : Os → Result OutboxWorkerConfig
load_outbox_worker_config os = do
  interval ← get_env_duration os (codes "OUTBOX_WORKER_INTERVAL") (pos (2 * second))
  batch_size ← get_env_int os (codes "OUTBOX_WORKER_BATCH_SIZE") (pos 50)
  max_retry ← get_env_int os (codes "OUTBOX_WORKER_MAX_RETRY") (pos 10)
  initial ← get_env_duration os (codes "OUTBOX_WORKER_RETRY_INITIAL_BACKOFF") (pos (30 * second))
  max_backoff ← get_env_duration os (codes "OUTBOX_WORKER_RETRY_MAX_BACKOFF") (pos (1800 * second))
  ratio ← get_env_float os (codes "OUTBOX_WORKER_RETRY_JITTER_RATIO") (codes "0.2")
  loaded (record {
    interval = interval;
    batch_size = batch_size;
    max_retry = max_retry;
    retry_initial_backoff = initial;
    retry_max_backoff = max_backoff;
    retry_jitter_ratio = ratio;
  })

pub record RedisConfig : Type 0 where
  pub enabled : Bool
  pub addr : Text
  pub password : Text
  pub db : ℤ
  pub dial_timeout : ℤ
  pub read_timeout : ℤ
  pub write_timeout : ℤ
  pub pool_size : ℤ
  pub min_idle_conns : ℤ
  pub max_retries : ℤ

unfoldable pub load_redis_config : Os → Result RedisConfig
load_redis_config os = do
  enabled ← get_env_bool os (codes "REDIS_ENABLED") false
  db ← get_env_int os (codes "REDIS_DB") (pos 0)
  dial_timeout ← get_env_duration os (codes "REDIS_DIAL_TIMEOUT") (pos (5 * second))
  read_timeout ← get_env_duration os (codes "REDIS_READ_TIMEOUT") (pos (3 * second))
  write_timeout ← get_env_duration os (codes "REDIS_WRITE_TIMEOUT") (pos (3 * second))
  pool_size ← get_env_int os (codes "REDIS_POOL_SIZE") (pos 10)
  min_idle_conns ← get_env_int os (codes "REDIS_MIN_IDLE_CONNS") (pos 2)
  max_retries ← get_env_int os (codes "REDIS_MAX_RETRIES") (pos 3)
  loaded (record {
    enabled = enabled;
    addr = get_env_default os (codes "REDIS_ADDR") (codes "");
    password = get_env_default os (codes "REDIS_PASSWORD") (codes "");
    db = db;
    dial_timeout = dial_timeout;
    read_timeout = read_timeout;
    write_timeout = write_timeout;
    pool_size = pool_size;
    min_idle_conns = min_idle_conns;
    max_retries = max_retries;
  })

-- getEnv of kafka.go, which trims the value
unfoldable pub get_env : Os → Text → Text → Text
get_env os key fallback = or_text (trim_space (os.get_env key)) fallback

-- strings.Split(value, ","): `part` is what was read of the present part, `rest` the parts that follow
unfoldable pub split_comma : Text → Text × List Text
split_comma [] = ([], [])
split_comma (c ∷ s) =
    let (part, rest) = split_comma s in if c == 0x2C then ([], part ∷ rest) else (c ∷ part, rest)

unfoldable pub keep_trimmed : List Text → List Text
keep_trimmed [] = []
keep_trimmed (part ∷ parts) =
    let rest = keep_trimmed parts in
    if is_empty (trim_space part) then rest else trim_space part ∷ rest

unfoldable pub split_and_trim : Text → List Text
split_and_trim value = let (part, rest) = split_comma value in keep_trimmed (part ∷ rest)

pub record KafkaConfig : Type 0 where
  pub brokers : List Text
  pub user_topic : Text
  pub audit_topic : Text
  pub notification_requested_topic : Text
  pub consumer_group : Text

abbrev pub with_brokers : KafkaConfig → List Text → Result KafkaConfig
with_brokers cfg [] = invalid (codes "KAFKA_BROKERS is required")
with_brokers cfg (b ∷ bs) = loaded cfg

unfoldable pub load_kafka_config : Os → Result KafkaConfig
load_kafka_config os =
    let brokers = split_and_trim (get_env os (codes "KAFKA_BROKERS") (codes "kafka:9092")) in
    with_brokers
      (record {
        brokers = brokers;
        user_topic = get_env os (codes "KAFKA_USER_TOPIC") (codes "portal.public.users");
        audit_topic =
            get_env os (codes "KAFKA_AUDIT_LOG_TOPIC") (codes "portal.public.action_logs");
        notification_requested_topic =
            get_env os (codes "KAFKA_NOTIFICATION_REQUESTED_TOPIC")
              (codes "notification.requested");
        consumer_group =
            get_env os (codes "KAFKA_CONSUMER_GROUP") (codes "portal-user-search-indexer");
      })
      brokers

pub record ElasticsearchConfig : Type 0 where
  pub url : Text
  pub user_index : Text
  pub audit_index : Text

unfoldable pub load_elasticsearch_config : Os → ElasticsearchConfig
load_elasticsearch_config os = record {
  url = or_text (os.get_env (codes "ELASTICSEARCH_URL")) (codes "http://elasticsearch:9200");
  user_index = or_text (os.get_env (codes "ELASTICSEARCH_USER_INDEX")) (codes "portal_users");
  audit_index = or_text (os.get_env (codes "ELASTICSEARCH_AUDIT_LOG_INDEX")) (codes "portal_users");
}
