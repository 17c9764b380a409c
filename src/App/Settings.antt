-- ===== src/App/Settings.antt =====
-- The settings that New of internal/app/bootstrap.go loads, before it touches anything.
use portal_backend.Prelude.{Bool, not, ◌&&◌}
use portal_backend.Text.{codes}
use portal_backend.Config.{
  Os, Result, loaded, ◌>>=◌, ◌>>◌, Config, RateLimitConfig, require, load, load_rate_limit_config,
}
use portal_backend.Config.Services.{
  OutboxWorkerConfig, RedisConfig, KafkaConfig, load_outbox_worker_config, load_redis_config,
  load_kafka_config,
}

pub record Settings : Type 0 where
  pub config : Config
  pub redis : RedisConfig
  pub kafka : KafkaConfig
  pub rate_limit : RateLimitConfig
  pub worker : OutboxWorkerConfig

abbrev pub limiter_without_redis : RateLimitConfig → RedisConfig → Bool
limiter_without_redis limit redis = limit.enabled && not redis.enabled

unfoldable pub settings : Os → Result Settings
settings os = do
  config ← load os
  redis ← load_redis_config os
  kafka ← load_kafka_config os
  rate_limit ← load_rate_limit_config os
  worker ← load_outbox_worker_config os
  require (not (limiter_without_redis rate_limit redis))
      (codes "RATE_LIMIT_ENABLED=true requires REDIS_ENABLED=true")
  loaded (record {
    config = config;
    redis = redis;
    kafka = kafka;
    rate_limit = rate_limit;
    worker = worker;
  })
