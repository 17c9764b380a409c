-- ===== src/App/Health/Ready.antt =====
-- When the server says that it is ready.
use mathlib.Core.Bool.{Bool-set}
use mathlib.Core.List.{Perm, Permᴰ}
use portal_backend.Prelude.{
  Bool, not, ◌&&◌, ◌||◌, ◌≡◌, refl, ◌∙◌, List, [], ◌∷◌, any, arith, if◌then◌else◌,
}
use portal_backend.Text.{Text, codes}
use portal_backend.App.Bootstrap.{App}
use portal_backend.App.Health.{
  Probes, reported, is_failing, overall, new_report, http_status, kafka_ping, redis_ping, status_ok,
  status_not_ready, readiness_report, root_mux,
}

overall_lem :
    (cs : List (Text × Text))
    → overall cs ≡ (if any is_failing cs then status_not_ready else status_ok)
unfolding overall
overall_lem [] = refl
overall_lem (c ∷ cs) = ground (arith, overall_lem cs)

any-Permᴰ :
    (p : Text × Text → Bool) {cs ds : List (Text × Text)} → Permᴰ cs ds → any p cs ≡ any p ds
any-Permᴰ p Permᴰ.nil = refl
any-Permᴰ p (Permᴰ.cons e d) = rw (e, any-Permᴰ p d) refl
any-Permᴰ p (Permᴰ.swap e f) = rw (e, f) (ground arith)
any-Permᴰ p (Permᴰ.trans d d') = any-Permᴰ p d ∙ any-Permᴰ p d'

-- The order of the checks, which a map does not fix, decides nothing: reports with the same checks
-- have the same status, and the same code of HTTP.
pub new_report-Perm :
    (cs ds : List (Text × Text))
    → Perm cs ds
    → ((new_report cs).status ≡ (new_report ds).status)
      × (http_status (new_report cs) ≡ http_status (new_report ds))
unfolding new_report http_status
new_report-Perm cs ds p =
    let same : any is_failing cs ≡ any is_failing ds =
      ∥∥₁_rec (Bool-set _ _) (any-Permᴰ is_failing) p in
    rw (overall_lem cs, overall_lem ds, same) (refl, refl)

-- The route of the readiness answers 200 where the database and the first broker of Kafka answer, and
-- Redis does if the limiter is on; it answers 503 otherwise.
pub readiness_lem :
    (app : App) (probes : Probes)
    → let report = readiness_report app probes in
      root_mux (λ _. report) (codes "/readiness")
      ≡ reported
          (if probes.db
              && probes.ping_db
              && kafka_ping probes app.kafka_brokers
              && (not app.rate_limit_config.enabled || redis_ping probes app.redis_client)
            then 200
            else 503)
          report
unfolding root_mux readiness_report new_report overall http_status
readiness_lem app probes = ground arith
