-- ===== src/App/Health.antt =====
-- internal/observability/health, the readiness of internal/app/readiness.go with the pings of
-- internal/infrastructure/kafka/ping.go and redis/client.go, and the routes of
-- internal/handler/gateway/observability.go. The checks of a report are a map in the code, whose
-- order is not fixed; here they are a list.
pub mod Ready
use portal_backend.Prelude.{
  ℕ, Bool, true, false, not, ◌&&◌, ◌||◌, List, [], ◌∷◌, ◌++◌, Option, none, some, any,
  if◌then◌else◌,
}
use portal_backend.Text.{Text, codes, text_eq}
use portal_backend.App.Bootstrap.{App, RedisClient}

abbrev pub status_ok : Text
status_ok = codes "ok"

abbrev pub status_error : Text
status_error = codes "error"

abbrev pub status_disabled : Text
status_disabled = codes "disabled"

abbrev pub status_not_ready : Text
status_not_ready = codes "not_ready"

pub record Report : Type 0 where
  pub status : Text
  pub checks : List (Text × Text)

abbrev pub is_failing : Text × Text → Bool
is_failing (name, status) = not (text_eq status status_ok) && not (text_eq status status_disabled)

-- the loop of NewReport, which stops at the first check that fails
unfoldable pub overall : List (Text × Text) → Text
overall [] = status_ok
overall (c ∷ cs) = let rest = overall cs in if is_failing c then status_not_ready else rest

-- NewReport
unfoldable pub new_report : List (Text × Text) → Report
new_report checks = record { status = overall checks; checks = checks }

-- HTTPStatus
unfoldable pub http_status : Report → ℕ
http_status report = if text_eq report.status status_ok then 200 else 503

-- What the servers that are asked answer: whether the pool of the database can be had and answers,
-- whether a broker of Kafka can be dialled, and whether Redis answers.
pub record Probes : Type 0 where
  pub db : Bool
  pub ping_db : Bool
  pub dial : Text → Bool
  pub ping_redis : RedisClient → Bool

-- kafka.Ping succeeds: the first broker is dialled, and none is an error
unfoldable pub kafka_ping : Probes → List Text → Bool
kafka_ping probes [] = false
kafka_ping probes (broker ∷ brokers) = probes.dial broker

-- redis.Ping succeeds: a client that is nil is not asked
unfoldable pub redis_ping : Probes → Option RedisClient → Bool
redis_ping probes none = true
redis_ping probes (some client) = probes.ping_redis client

abbrev pub status_of : Bool → Text
status_of b = if b then status_ok else status_error

-- the check of Redis, which is made only where the limiter is on
abbrev pub redis_checks : App → Probes → List (Text × Text)
redis_checks app probes =
    if app.rate_limit_config.enabled
    then (codes "redis", status_of (redis_ping probes app.redis_client)) ∷ []
    else []

-- readinessReport
unfoldable pub readiness_report : App → Probes → Report
readiness_report app probes = new_report (
    (codes "db", status_of (probes.db && probes.ping_db))
    ∷ (codes "kafka", status_of (kafka_ping probes app.kafka_brokers))
    ∷ redis_checks app probes)

-- what a route of the root answers: the metrics, a status with a report, or what the gateway does
pub data Answer : Type 0 where
  metrics gateway : Answer
  reported : ℕ → Report → Answer

-- the routes of NewRootMux; only the last takes more than its own path
unfoldable pub root_mux : (Unit {0} → Report) → Text → Answer
root_mux readiness path =
    if text_eq path (codes "/metrics")
    then metrics
    else if text_eq path (codes "/livez")
    then reported 200 (record { status = status_ok; checks = [] })
    else if text_eq path (codes "/readiness")
    then reported (http_status (readiness tt)) (readiness tt)
    else gateway
