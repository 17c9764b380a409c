-- ===== src/App/Bootstrap/Started.antt =====
-- What a server that has started is wired with.
use mathlib.Core.Path.{subst}
use portal_backend.Prelude.{
  true, false, not, ◌||◌, ◌≡◌, refl, sym, ◌⊎◌, inl, inr, List, Option, none, some, is_some,
}
use portal_backend.Domain.{RoleCode, PermissionCode}
use portal_backend.Model.{Db}
use portal_backend.World.{World, ok}
use portal_backend.World.Returns.{
  Returns, Post, Returns-bind, Returns-query, Returns-pure, Returns-if, Returns-fail, Returns-mono,
  Returns-always,
}
use portal_backend.Config.{Os, Result, loaded, invalid, Config, RateLimitConfig}
use portal_backend.Seed.Grants.{
  AllSeeded, AllSeeded-Grows, seed_role_permissions-Returns, seed_admin-Returns,
}
use portal_backend.App.Settings.{Settings, settings}
use portal_backend.App.Bootstrap.{
  App, RedisClient, Start, misconfigured, attempted, new_app, start_with, launch, open_limiter,
  seed_development, is_development, new_redis_limiter,
}

-- The limiter is there where it is on, the client of Redis where Redis is on or the limiter needs it,
-- and in development each role has the permissions of its table.
pub record Wired (table : List (RoleCode × List PermissionCode)) (app : App) (db : Db)
    : Type 0 where
  limiter : is_some app.rate_limiter ≡ app.rate_limit_config.enabled
  needs_redis : (not (is_some app.rate_limiter) || is_some app.redis_client) ≡ true
  seeded : (is_development app.config ≡ false) ⊎ AllSeeded table db

open_limiter-Returns :
    (cfg : RateLimitConfig) (client : Option RedisClient) (w : World)
    → Returns (open_limiter cfg client) w (λ limiter w'.
      (is_some limiter ≡ cfg.enabled) × ((not (is_some limiter) || is_some client) ≡ true))
unfolding open_limiter new_redis_limiter
open_limiter-Returns cfg none w =
    Returns-if _ _ _ (λ on. Returns-bind Returns-fail) (λ off. Returns-pure (sym off, refl))
open_limiter-Returns cfg (some client) w =
    Returns-if _ _ _ (λ on. Returns-bind (Returns-pure (Returns-pure (sym on, refl))))
      (λ off. Returns-pure (sym off, refl))

seed_development-Returns :
    (table : List (RoleCode × List PermissionCode)) (cfg : Config) (w : World)
    → Returns
        (seed_development table cfg)
        w
        (λ _ w'. (is_development cfg ≡ false) ⊎ AllSeeded table w'.base)
unfolding seed_development
seed_development-Returns table cfg w =
    Returns-if _ _ _
      (λ on. Returns-bind (
        Returns-always _ λ _. Returns-bind (
          Returns-always _ λ _. Returns-bind (
            Returns-mono (seed_role_permissions-Returns table _) λ _ w1 granted.
              Returns-mono (seed_admin-Returns _ w1)
                λ _ w2 grows. inr (AllSeeded-Grows w1.base w2.base table grows granted.1)))))
      (λ off. Returns-pure (inl off))

launch-Returns :
    (table : List (RoleCode × List PermissionCode)) (s : Settings) (w : World)
    → Returns (launch table s) w (λ app w'. Wired table app w'.base)
unfolding launch
launch-Returns table s w = Returns-bind (
    Returns-query _ _ λ _ _. Returns-bind (
      Returns-always _ λ client. Returns-bind (
        Returns-mono (open_limiter-Returns _ client _) λ limiter w1 fits. Returns-bind (
          Returns-query _ _ λ _ _. Returns-bind (
            Returns-mono (seed_development-Returns table _ _) λ _ w2 seeded.
              Returns-pure (record { limiter = fits.0; needs_redis = fits.1; seeded = seeded }))))))

abbrev Launched : List (RoleCode × List PermissionCode) → Start × World → Type 0
Launched table (misconfigured e, w) = Unit {0}
Launched table (attempted r, w) = Post (λ app w'. Wired table app w'.base) (r, w)

start_with-Launched :
    (table : List (RoleCode × List PermissionCode)) (r : Result Settings) (w : World)
    → Launched table (start_with table r w)
start_with-Launched table (invalid e) w = tt
start_with-Launched table (loaded s) w = (launch-Returns table s w).at

-- Where a server starts: its limiter is there if and only if it is on, with a client of Redis, and in
-- development each role of the table of grants, in whatever order it is read, is there and is granted
-- its permissions.
pub started_is_Wired :
    (table : List (RoleCode × List PermissionCode)) (os : Os) (w : World) (app : App) (w' : World)
    → new_app table os w ≡ (attempted (ok app), w')
    → Wired table app w'.base
unfolding new_app
started_is_Wired table os w app w' started =
    subst (Launched table) started (start_with-Launched table (settings os) w)
